-- ===== src/Tests/Options.antt =====
-- Runs of the options of the code generators.
use qtgrpc.Prelude.{◌≡◌, refl, some}
use qtgrpc.Prelude.Ascii.{ascii}
use qtgrpc.Generator.Options.{Parsed, default_options, set_from_string}
use qtgrpc.Generator.Options.Sound.{options_of, IsSound, set_from_string-IsSound}

default_options-IsSound : IsSound default_options
default_options-IsSound = record {
  named = λ ne. absurd (ne refl);
  filed = λ ne. absurd (ne refl);
  exported = λ e. cc;
}

set_from_string-IsSound_example :
    (p : Parsed) × (set_from_string (ascii "EXPORT_MACRO=API::true;QML") default_options ≡ some p)
    × IsSound (options_of p)
set_from_string-IsSound_example =
    set_from_string-IsSound (ascii "EXPORT_MACRO=API::true;QML") default_options
      default_options-IsSound
