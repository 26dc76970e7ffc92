-- ===== src/Model/Store/Hashes.antt =====
-- A struct under a key of the database, ippop/api/model/structmap.go.
use titan_tunnel.Prelude.{List, [], ◌∷◌, Option, some, ok, GoString, ◌≡◌, arith, str_eq_refl, ◌∙◌}
use titan_tunnel.Prelude.Maps.{get, or_else}
use titan_tunnel.Model.StructMap.{
  Strconv, StructField, Hash, format_value, struct_to_map, map_to_struct,
}
use titan_tunnel.Model.StructMap.RoundTrip.{
  StrconvLaws, IsStorable, Holds, SameFields, struct_to_map-Holds, map_to_struct-Holds,
}
use titan_tunnel.Model.Redis.{View, hset, apply}

module _ (conv : Strconv) where
  -- A hash has these fields, under their tags.
  abbrev pub HashHolds : (GoString → Option GoString) → List StructField → Type 0
  HashHolds h [] = Unit {0}
  HashHolds h (f ∷ fs) = (h f.tag ≡ some (format_value conv f.value)) × HashHolds h fs

  pub HashHolds-mono :
      (h h' : GoString → Option GoString) (fs : List StructField)
      → ((k : GoString) → h' k ≡ h k)
      → HashHolds h fs
      → HashHolds h' fs
  HashHolds-mono h h' [] e v = tt
  HashHolds-mono h h' (f ∷ fs) e (a, v) = (e f.tag ∙ a, HashHolds-mono h h' fs e v)

  pub Holds-HashHolds :
      (laws : StrconvLaws conv) (m : Hash) (h : GoString → Option GoString) (fs : List StructField)
      → ((k : GoString) → get m k ≡ h k)
      → HashHolds h fs
      → Holds conv laws m fs
  Holds-HashHolds laws m h [] e v = tt
  Holds-HashHolds laws m h (f ∷ fs) e (a, v) = (e f.tag ∙ a, Holds-HashHolds laws m h fs e v)

  overlay-HashHolds :
      (laws : StrconvLaws conv) (m : Hash) (old : GoString → Option GoString)
      (fs : List StructField)
      → Holds conv laws m fs
      → HashHolds (λ k. or_else (get m k) (old k)) fs
  overlay-HashHolds laws m old [] v = tt
  overlay-HashHolds laws m old (f ∷ fs) (a, v) = (rw a, overlay-HashHolds laws m old fs v)

  -- HSET of a struct leaves a hash that has its fields.
  pub hset-HashHolds :
      (laws : StrconvLaws conv) (key : GoString) (fs : List StructField) (v : View)
      → IsStorable fs
      → HashHolds ((apply (hset key (struct_to_map conv fs)) v).hash key) fs
  hset-HashHolds laws key fs v s =
      HashHolds-mono (λ k. or_else (get (struct_to_map conv fs) k) (v.hash key k)) _ fs
        (λ k. ground (arith, str_eq_refl key))
        (overlay-HashHolds laws (struct_to_map conv fs) (v.hash key) fs
          (struct_to_map-Holds conv laws fs s))

  -- A hash that has the fields is loaded as them.
  pub map_to_struct-HashHolds :
      (laws : StrconvLaws conv) (m : Hash) (h : GoString → Option GoString)
      (fs gs : List StructField)
      → ((k : GoString) → get m k ≡ h k)
      → HashHolds h fs
      → IsStorable fs
      → SameFields gs fs
      → map_to_struct conv m gs ≡ ok fs
  map_to_struct-HashHolds laws m h fs gs e v s k =
      map_to_struct-Holds conv laws m fs gs s (Holds-HashHolds laws m h fs e v) k
