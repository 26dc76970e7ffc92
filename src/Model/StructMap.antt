-- ===== src/Model/StructMap.antt =====
-- ippop/api/model/structmap.go: a struct as the fields that package reflect shows, with their
-- redis tags, and its map of strings. The structs of the program have string, bool and integer
-- fields only; the branches for floats and times are not modelled.
pub mod RoundTrip
use titan_tunnel.Prelude.{
  ℕ, List, [], ◌∷◌, Option, none, some, Result, ok, err, GoString, codes, Bool, true, false,
  if◌then◌else◌, str_eq, is_empty, ◌||◌,
}
use titan_tunnel.Prelude.Maps.{GoMap, empty, get, put}

-- What fmt.Sprintf("%v", x), strconv.ParseInt and strconv.ParseBool do; an int64 is its bit pattern.
pub record Strconv : Type 0 where
  pub format_int : ℕ → GoString
  pub parse_int : GoString → Option ℕ
  pub format_bool : Bool → GoString
  pub parse_bool : GoString → Option Bool

-- The error of a field that cannot be parsed.
pub data StructError : Type 0 where
  invalid_bool invalid_int : StructError

pub data FieldValue : Type 0 where
  str : GoString → FieldValue
  bool : Bool → FieldValue
  int : ℕ → FieldValue

pub record StructField : Type 0 where
  pub name : GoString
  pub tag : GoString
  pub exported : Bool
  pub value : FieldValue

abbrev pub Hash : Type 0
Hash = GoMap GoString

-- tag != "" && tag != "-", negated
abbrev pub is_untagged : GoString → Bool
is_untagged tag = is_empty tag || str_eq tag (codes "-")

module _ (conv : Strconv) where
  unfoldable pub format_value : FieldValue → GoString
  format_value (str s) = s
  format_value (bool b) = conv.format_bool b
  format_value (int n) = conv.format_int n

  -- The loop of structToMap, with the map that it fills.
  unfoldable pub struct_to_map_from : Hash → List StructField → Hash
  struct_to_map_from out [] = out
  struct_to_map_from out (f ∷ fs) =
      struct_to_map_from
        (if f.exported
          then (if is_untagged f.tag then out else put out f.tag (format_value f.value))
          else out)
        fs

  unfoldable pub struct_to_map : List StructField → Hash
  struct_to_map fs = struct_to_map_from empty fs

  abbrev pub set_bool : StructField → Option Bool → Result StructError StructField
  set_bool f none = err invalid_bool
  set_bool f (some b) = ok (record f { value = bool b })

  abbrev pub set_int : StructField → Option ℕ → Result StructError StructField
  set_int f none = err invalid_int
  set_int f (some n) = ok (record f { value = int n })

  -- The switch on the kind of the field.
  abbrev pub parse_value : StructField → GoString → FieldValue → Result StructError StructField
  parse_value f s (str _) = ok (record f { value = str s })
  parse_value f s (bool _) = set_bool f (conv.parse_bool s)
  parse_value f s (int _) = set_int f (conv.parse_int s)

  abbrev pub field_key : StructField → GoString
  field_key f = if is_untagged f.tag then f.name else f.tag

  abbrev pub load_found : StructField → Option GoString → Result StructError StructField
  load_found f none = ok f
  load_found f (some s) = parse_value f s f.value

  -- One round of the loop of mapToStruct.
  unfoldable pub load_field : Hash → StructField → Result StructError StructField
  load_field m f = if f.exported then load_found f (get m (field_key f)) else ok f

  unfoldable pub map_to_struct : Hash → List StructField → Result StructError (List StructField)
  map_to_struct m [] = ok []
  map_to_struct m (f ∷ fs) =
      let rest = map_to_struct m fs in
      elim (load_field m f) [
        | err e ↦ err e
        | ok f' ↦ elim rest [ err e ↦ err e | ok fs' ↦ ok (f' ∷ fs') ]
      ]
