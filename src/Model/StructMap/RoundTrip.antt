-- ===== src/Model/StructMap/RoundTrip.antt =====
-- Storing and loading a struct, ippop/api/model/structmap.go.
use titan_tunnel.Prelude.{
  ℕ, ◌^◌, ◌<◌, List, [], ◌∷◌, some, ok, GoString, Bool, true, false, str_eq, str_eq_refl, ◌≡◌, refl,
  arith, ◌∙◌, ap, sym, subst,
}
use titan_tunnel.Prelude.Maps.{empty, get, put, get-put}
use titan_tunnel.Model.StructMap.{
  Strconv, FieldValue, str, bool, int, StructField, Hash, is_untagged, format_value,
  struct_to_map_from, struct_to_map, load_field, map_to_struct,
}

-- What is documented of the conversions: parsing gives back what was formatted.
pub record StrconvLaws (conv : Strconv) : Type 0 where
  pub parse-format_int : (n : ℕ) → n < 2 ^ 64 → conv.parse_int (conv.format_int n) ≡ some n
  pub parse-format_bool : (b : Bool) → conv.parse_bool (conv.format_bool b) ≡ some b

abbrev pub IsInt64 : FieldValue → Type 0
IsInt64 (int n) = n < 2 ^ 64
IsInt64 _ = Unit {0}

-- No field of the list has the tag.
abbrev pub IsFreshTag : GoString → List StructField → Type 0
IsFreshTag t [] = Unit {0}
IsFreshTag t (f ∷ fs) = (str_eq f.tag t ≡ false) × IsFreshTag t fs

-- Every field has a tag of its own and a value in range. An untagged field is not stored.
abbrev pub IsStorable : List StructField → Type 0
IsStorable [] = Unit {0}
IsStorable (f ∷ fs) =
    (f.exported ≡ true)
    × (is_untagged f.tag ≡ false)
    × IsInt64 f.value
    × IsFreshTag f.tag fs
    × IsStorable fs

-- The kind of a field without its value.
abbrev pub SameKind : FieldValue → FieldValue → Type 0
SameKind (str _) (str _) = Unit {0}
SameKind (bool _) (bool _) = Unit {0}
SameKind (int _) (int _) = Unit {0}
SameKind _ _ = ⊥

abbrev pub SameFields : List StructField → List StructField → Type 0
SameFields [] [] = Unit {0}
SameFields (f ∷ fs) (g ∷ gs) =
    (f.name ≡ g.name)
    × (f.tag ≡ g.tag)
    × (f.exported ≡ g.exported)
    × SameKind f.value g.value
    × SameFields fs gs
SameFields _ _ = ⊥

module _ (conv : Strconv) (laws : StrconvLaws conv) where
  -- The map holds every field of the list.
  abbrev pub Holds : Hash → List StructField → Type 0
  Holds m [] = Unit {0}
  Holds m (f ∷ fs) = (get m f.tag ≡ some (format_value conv f.value)) × Holds m fs

  get-struct_to_map_from_fresh :
      (t : GoString) (fs : List StructField) (out : Hash)
      → IsFreshTag t fs
      → get (struct_to_map_from conv out fs) t ≡ get out t
  unfolding struct_to_map_from
  get-struct_to_map_from_fresh t [] out h = refl
  get-struct_to_map_from_fresh t (f ∷ fs) out (a, h) =
      get-struct_to_map_from_fresh t fs _ h
      ∙ ground (arith, get-put out f.tag t (format_value conv f.value))

  struct_to_map_from-cons :
      (f : StructField) (fs : List StructField) (out : Hash)
      → f.exported ≡ true
      → is_untagged f.tag ≡ false
      → struct_to_map_from conv out (f ∷ fs)
        ≡ struct_to_map_from conv (put out f.tag (format_value conv f.value)) fs
  unfolding struct_to_map_from
  struct_to_map_from-cons f fs out e t = ap (λ m. struct_to_map_from conv m fs) (ground arith)

  struct_to_map_from-Holds :
      (fs : List StructField) (out : Hash)
      → IsStorable fs
      → Holds (struct_to_map_from conv out fs) fs
  struct_to_map_from-Holds [] out v = tt
  struct_to_map_from-Holds (f ∷ fs) out (e, t, i, n, v) =
      let next = put out f.tag (format_value conv f.value) in
      let held : get (struct_to_map_from conv next fs) f.tag ≡ some (format_value conv f.value) =
        get-struct_to_map_from_fresh f.tag fs next n
        ∙ ground (arith, get-put out f.tag f.tag (format_value conv f.value), str_eq_refl f.tag) in
      subst (λ m. Holds m (f ∷ fs)) (sym (struct_to_map_from-cons f fs out e t))
        (held, struct_to_map_from-Holds fs next v)

  -- structToMap stores every field under its tag.
  pub struct_to_map-Holds :
      (fs : List StructField) → IsStorable fs → Holds (struct_to_map conv fs) fs
  unfolding struct_to_map
  struct_to_map-Holds fs v = struct_to_map_from-Holds fs empty v

  module _ (m : Hash) (f g : StructField) where
    load_value :
        (v w : FieldValue)
        → f.value ≡ v
        → g.value ≡ w
        → SameKind w v
        → IsInt64 v
        → f.exported ≡ true
        → is_untagged f.tag ≡ false
        → get m f.tag ≡ some (format_value conv v)
        → g.name ≡ f.name
        → g.tag ≡ f.tag
        → g.exported ≡ f.exported
        → load_field conv m g ≡ ok f
    unfolding load_field format_value
    load_value (str s) (str s') a b k i e t h n x y = ground arith
    load_value (bool c) (bool c') a b k i e t h n x y = ground (arith, laws.parse-format_bool c)
    load_value (int c) (int c') a b k i e t h n x y = ground (arith, laws.parse-format_int c i)
    load_value _ _ a b k i e t h n x y = absurd k

  -- A map that holds the fields is loaded as them, into any struct of the same type.
  pub map_to_struct-Holds :
      (m : Hash) (fs gs : List StructField)
      → IsStorable fs
      → Holds m fs
      → SameFields gs fs
      → map_to_struct conv m gs ≡ ok fs
  unfolding map_to_struct
  map_to_struct-Holds m [] [] v h k = refl
  map_to_struct-Holds m (f ∷ fs) (g ∷ gs) (e, t, i, fresh, v) (h, hs) (n, x, y, z, k) = ground (
    arith,
    load_value m f g f.value g.value refl refl z i e t h n x y,
    map_to_struct-Holds m fs gs v hs k,
  )
  map_to_struct-Holds m [] (g ∷ gs) v h k = absurd k
  map_to_struct-Holds m (f ∷ fs) [] v h k = absurd k
