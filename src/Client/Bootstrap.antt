-- ===== src/Client/Bootstrap.antt =====
-- The list of bootstraps, kept in a file: client/bootstrap/mgr.go.
use titan_tunnel.Prelude.{
  List, [], ◌∷◌, Option, none, some, Result, ok, err, GoString, Bool, true, false, if◌then◌else◌,
  ◌≡◌, refl, ap, ◌∙◌,
}
use mathlib.Core.List.{Memᴰ}
use titan_tunnel.Client.Web.{Web, http_get}

-- os.ReadFile: the content, os.ErrNotExist, or another error.
pub data Read : Type 0 where
  content : GoString → Read
  not_exist unreadable : Read

-- os.MkdirAll of the directory, and os.WriteFile of the file's new content over what is there: true
-- is a nil error.
pub record Files : Type 0 where
  pub mkdir : Bool
  pub write_file : GoString → Read → Bool × Read

pub data BootstrapError : Type 0 where
  mkdir_failed read_failed write_failed not_json : BootstrapError

-- BootstrapMgr, with its file.
pub record BootstrapMgr : Type 0 where
  pub file : Read
  pub bootstraps : List GoString

module _ (web : Web) (files : Files) where
  abbrev decoded : (Read → BootstrapMgr) → Read → Option (List GoString) → BootstrapMgr
  decoded continue_ file none = continue_ file
  decoded continue_ file (some urls) = record { file = file; bootstraps = urls }

  abbrev written : (Read → BootstrapMgr) → GoString → Bool × Read → BootstrapMgr
  written continue_ bytes (false, file) = continue_ file
  written continue_ bytes (true, file) = decoded continue_ file (web.unmarshal_bootstraps bytes)

  abbrev fetched : (Read → BootstrapMgr) → Read → Option GoString → BootstrapMgr
  fetched continue_ file none = continue_ file
  fetched continue_ file (some bytes) = written continue_ bytes (files.write_file bytes file)

  -- the loop over the URLs; `old` is the list before it
  abbrev pub update_from : List GoString → List GoString → Read → BootstrapMgr
  update_from old [] file = record { file = file; bootstraps = old }
  update_from old (url ∷ urls) file = fetched (λ f. update_from old urls f) file (http_get web url)

  unfoldable pub get_bootstraps_from_server : BootstrapMgr → BootstrapMgr
  get_bootstraps_from_server m = update_from m.bootstraps m.bootstraps m.file

  abbrev started : Read → Option (List GoString) → Result BootstrapError BootstrapMgr
  started file none = err not_json
  started file (some urls) =
      ok (get_bootstraps_from_server (record { file = file; bootstraps = urls }))

  abbrev installed : GoString → Bool × Read → Result BootstrapError BootstrapMgr
  installed embedded (false, file) = err write_failed
  installed embedded (true, file) = started file (web.unmarshal_bootstraps embedded)

  -- `embedded` is the list that is built into the program
  abbrev pub read_bootstraps : GoString → Read → Result BootstrapError BootstrapMgr
  read_bootstraps embedded unreadable = err read_failed
  read_bootstraps embedded not_exist = installed embedded (files.write_file embedded not_exist)
  read_bootstraps embedded (content bytes) =
      started (content bytes) (web.unmarshal_bootstraps bytes)

  -- The file is what an earlier run has left.
  unfoldable pub new_bootstrap_mgr : GoString → Read → Result BootstrapError BootstrapMgr
  new_bootstrap_mgr embedded file =
      if files.mkdir then read_bootstraps embedded file else err mkdir_failed

  update_from-not_json :
      (old urls : List GoString) (bytes : GoString) (url : GoString) (file : Read)
      → ((u : GoString) → Memᴰ u (url ∷ urls) → http_get web u ≡ some bytes)
      → ((f : Read) → files.write_file bytes f ≡ (true, content bytes))
      → web.unmarshal_bootstraps bytes ≡ none
      → update_from old (url ∷ urls) file ≡ record { file = content bytes; bootstraps = old }
  update_from-not_json old urls bytes url file answers writes bad =
      ap (fetched (λ f. update_from old urls f) file) (answers url (Memᴰ.head refl))
      ∙ ap (written (λ f. update_from old urls f) bytes) (writes file)
      ∙ ap (decoded (λ f. update_from old urls f) (content bytes)) bad
      ∙ go urls (λ u m. answers u (Memᴰ.tail m))
    where
      go :
          (urls : List GoString)
          → ((u : GoString) → Memᴰ u urls → http_get web u ≡ some bytes)
          → update_from old urls (content bytes) ≡ record { file = content bytes; bootstraps = old }
      go [] answers = refl
      go (u ∷ urls) answers =
          ap (fetched (λ f. update_from old urls f) (content bytes)) (answers u (Memᴰ.head refl))
          ∙ ap (written (λ f. update_from old urls f) bytes) (writes (content bytes))
          ∙ ap (decoded (λ f. update_from old urls f) (content bytes)) bad
          ∙ go urls (λ u m. answers u (Memᴰ.tail m))

  -- An update whose URLs all answer with the same bytes that are no JSON, a login page of a network
  -- for instance, keeps the list in memory but leaves the bytes in the file, and no later start of
  -- the program succeeds with this file: it is not replaced by the list that is built in.
  pub get_bootstraps_from_server-not_json :
      (m : BootstrapMgr) (url : GoString) (urls : List GoString) (bytes embedded : GoString)
      → m.bootstraps ≡ url ∷ urls
      → ((u : GoString) → Memᴰ u (url ∷ urls) → http_get web u ≡ some bytes)
      → ((f : Read) → files.write_file bytes f ≡ (true, content bytes))
      → files.mkdir ≡ true
      → web.unmarshal_bootstraps bytes ≡ none
      → ((get_bootstraps_from_server m).bootstraps ≡ m.bootstraps)
        × (new_bootstrap_mgr embedded (get_bootstraps_from_server m).file ≡ err not_json)
  unfolding get_bootstraps_from_server new_bootstrap_mgr
  get_bootstraps_from_server-not_json m url urls bytes embedded list answers writes dir bad =
      let e : get_bootstraps_from_server m
          ≡ record { file = content bytes; bootstraps = m.bootstraps } =
        ap (λ l. update_from m.bootstraps l m.file) list
        ∙ update_from-not_json m.bootstraps urls bytes url m.file answers writes bad in
      (
        ap (λ (x : BootstrapMgr). x.bootstraps) e,
        ap (λ (x : BootstrapMgr). new_bootstrap_mgr embedded x.file) e
            ∙ rw dir (ap (started (content bytes)) bad),
      )
