-- ===== src/Artifacts/Abi.antt =====
-- crates/sol-artifacts/src/abi.rs: the artifact in a file. The file's JSON and the reading of its code are
-- parameters; a file that exists can be opened.
use ethui.Common.{
  String, Bool, true, false, not, Option, none, some, List, [], ◌∷◌, ◌==◌, list_Same, nat_Same,
  if◌then◌else◌,
}
use ethui.Common.Json.{Json, null, at, as_str}
use ethui.Common.Radix.{Text}
use ethui.Rpc.{bytes}
use ethui.Artifacts.Paths.{Name, FilePath}

pub record SolArtifact : Type 0 where
  pub path : FilePath
  pub project : Name
  pub solidity_file : Name
  pub name : Name
  pub code : Text
  pub abi : Json
  pub method_identifiers : Json

pub record Files : Type 0 where
  pub exists : FilePath → Bool
  pub read_json : FilePath → Option Json
  pub parse_bytes : String → Option Text

-- `strip_suffix(".json")`, where a name that is only the suffix has no extension.
abbrev strip_json : Name → Option Name
strip_json [] = none
strip_json (c ∷ name) =
    let rest = strip_json name in
    if name == bytes ".json"
    then some (c ∷ [])
    else (elim rest [ none ↦ none | some stem ↦ some (c ∷ stem) ])

-- `components().rev()`
abbrev rev_onto : List Name → List Name → List Name
rev_onto acc [] = acc
rev_onto acc (n ∷ ns) = rev_onto (n ∷ acc) ns

-- The names of the contract, of its Solidity file and of its project; the folder between is the output's.
abbrev names_of : List Name → Option (Name × Name × Name)
names_of (file ∷ solidity_file ∷ out ∷ project ∷ rest) = elim (strip_json file) [
  | none ↦ none
  | some name ↦ some (name, solidity_file, project)
]
names_of _ = none

abbrev bytecode : Json → Option String
bytecode json = elim (as_str (at (at json "deployedBytecode") "object")) [
  | none ↦ as_str (at json "deployedBytecode")
  | some text ↦ some text
]

abbrev is_null : Json → Bool
is_null null = true
is_null _ = false

abbrev code_in : Files → Json → Option Text
code_in files json = elim (bytecode json) [ none ↦ none | some text ↦ files.parse_bytes text ]

unfoldable pub read_artifact : Files → FilePath → Option SolArtifact
read_artifact files path =
    if not (files.exists path) then none else elim (names_of (rev_onto [] path)) [
      | none ↦ none
      | some (name, solidity_file, project) ↦ elim (files.read_json path) [
        | none ↦ none
        | some json ↦ elim (code_in files json) [
          | none ↦ none
          | some code ↦
              if is_null (at json "abi")
              then none
              else some (record {
                path = path;
                project = project;
                solidity_file = solidity_file;
                name = name;
                code = code;
                abi = at json "abi";
                method_identifiers = at json "methodIdentifiers";
              })
        ]
      ]
    ]
