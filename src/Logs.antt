-- ===== src/Logs.antt =====
-- bin/src/logs.rs: which layers the log is set up with. The subscriber of the `tracing` crates is the
-- list of its layers; the parts of a path are parameters, and the directives of the filter are
-- constants that parse.
use nailgun.Prelude.{
  ◌≡◌, refl, ◌⊎◌, inl, inr, Bool, true, false, Option, none, some, List, [], ◌∷◌, ◌↔◌, Fault,
  Result, ok, err, ◌>>=◌, or_fault, Option-cases,
}
use nailgun.Args.{Args, LogStructure, debug, pretty, json}

-- How a layer prints an event: as `Format::default().pretty()` with its fields pretty, as
-- `Format::default()` with its fields pretty, in the default way, or as JSON.
pub data Style : Type 0 where
  pretty_events pretty_fields plain as_json : Style

-- Where it prints: on standard output, or to the file in a directory.
pub data Target (FilePath : Type 0) : Type 0 where
  stdout : Target FilePath
  to_file : FilePath → FilePath → Target FilePath

pub record Layer (FilePath : Type 0) : Type 0 where
  pub style : Style
  pub target : Target FilePath

-- `Path::parent` and `Path::file_name`.
pub record Paths (FilePath : Type 0) : Type 0 where
  pub parent : FilePath → Option FilePath
  pub file_name : FilePath → Option FilePath

module _ {FilePath : Type 0} where
  abbrev pub both : Style → Style → Target FilePath → List (Layer FilePath)
  both s s' file = record { style = s; target = stdout } ∷ record { style = s'; target = file } ∷ []

  -- The layers with a file.
  unfoldable pub file_layers : LogStructure → Target FilePath → List (Layer FilePath)
  file_layers pretty file = both pretty_events plain file
  file_layers debug file = both plain plain file
  file_layers json file = both as_json as_json file

  unfoldable pub stdout_layer : LogStructure → Layer FilePath
  stdout_layer pretty = record { style = pretty_fields; target = stdout }
  stdout_layer debug = record { style = plain; target = stdout }
  stdout_layer json = record { style = as_json; target = stdout }

  -- Each layer has a style that is JSON exactly if that was asked for.
  stdout_layer-json :
      (o : LogStructure)
      → (style : Style) × (stdout_layer o ≡ record { style = style; target = stdout })
        × ((style ≡ as_json) ↔ (o ≡ json))
  unfolding stdout_layer
  stdout_layer-json pretty = (pretty_fields, refl, (λ h. cc, λ h. cc))
  stdout_layer-json debug = (plain, refl, (λ h. cc, λ h. cc))
  stdout_layer-json json = (as_json, refl, (λ h. refl, λ h. refl))

  file_layers-json :
      (o : LogStructure) (file : Target FilePath)
      → (style style' : Style) × (file_layers o file ≡ both style style' file)
        × ((style ≡ as_json) ↔ (o ≡ json))
        × ((style' ≡ as_json) ↔ (o ≡ json))
  unfolding file_layers
  file_layers-json pretty file =
      (pretty_events, plain, refl, (λ h. cc, λ h. cc), (λ h. cc, λ h. cc))
  file_layers-json debug file = (plain, plain, refl, (λ h. cc, λ h. cc), (λ h. cc, λ h. cc))
  file_layers-json json file =
      (as_json, as_json, refl, (λ h. refl, λ h. refl), (λ h. refl, λ h. refl))

module _ {FilePath RecordType DnsClass : Type 0} (paths : Paths FilePath) where
  -- `setup`: the layers, and whether there is a guard that writes to a file.
  unfoldable pub setup : Args FilePath RecordType DnsClass → Result (List (Layer FilePath) × Bool)
  setup a = elim a.log_file [
    | some file ↦ do
      directory ← or_fault (paths.parent file) Fault.failed
      name ← or_fault (paths.file_name file) Fault.failed
      ok (file_layers a.output (to_file directory name), true)
    | none ↦ ok (stdout_layer a.output ∷ [], false)
  ]

  -- What the log is set up with, on every branch: without a file, one layer on standard output; with
  -- a file that has a directory and a name, one there and one to the file, and a guard; each layer is
  -- JSON exactly if that was asked for; and with a file that lacks one of these, an error.
  pub setup_lem :
      (a : Args FilePath RecordType DnsClass)
      → ((style : Style) × (a.log_file ≡ none)
          × (setup a ≡ ok (record { style = style; target = stdout } ∷ [], false))
          × ((style ≡ as_json) ↔ (a.output ≡ json)))
        ⊎ ((file directory name : FilePath) × (style style' : Style) × (a.log_file ≡ some file)
            × (paths.parent file ≡ some directory)
            × (paths.file_name file ≡ some name)
            × (setup a ≡ ok (both style style' (to_file directory name), true))
            × ((style ≡ as_json) ↔ (a.output ≡ json))
            × ((style' ≡ as_json) ↔ (a.output ≡ json)))
        ⊎ ((file : FilePath) × (a.log_file ≡ some file)
            × ((paths.parent file ≡ none) ⊎ (paths.file_name file ≡ none))
            × (setup a ≡ err Fault.failed))
  unfolding setup
  setup_lem a = elim (Option-cases a.log_file) [
    | inl no_file ↦
        let (style, layer, asked) = stdout_layer-json {FilePath = FilePath} a.output in
        inl (style, no_file, rw (no_file, layer, setup), asked)
    | inr (file, given) ↦ elim (Option-cases (paths.parent file)) [
      | inl rootless ↦ inr (inr (file, given, inl rootless, rw (given, rootless, setup) refl))
      | inr (directory, e) ↦ elim (Option-cases (paths.file_name file)) [
        | inl nameless ↦ inr (inr (file, given, inr nameless, rw (given, e, nameless, setup) refl))
        | inr (name, e') ↦
            let (style, style', layers, asked, asked') =
              file_layers-json a.output (to_file directory name) in
            inr (
              inl (
                file,
                directory,
                name,
                style,
                style',
                given,
                e,
                e',
                rw (given, e, e', layers, setup),
                asked,
                asked',
              ))
      ]
    ]
  ]
