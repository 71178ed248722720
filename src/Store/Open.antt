-- ===== src/Store/Open.antt =====
-- internal/store/db.go: which directory is made for the database file.
use xpay_server.Base.{
  Bool, ◌||◌, Option, none, some, [], ◌∷◌, if◌then◌else◌, ◌==◌, str_eq, Str, codes, is_empty,
  has_prefix,
}

-- `strings.Contains`
unfoldable pub contains_text : Str → Str → Bool
contains_text [] t = is_empty t
contains_text (c ∷ s) t = has_prefix (c ∷ s) t || contains_text s t

-- The parts of a parsed URL that `dbDir` reads.
pub record Url : Type 0 where
  pub opaque_part : Str
  pub path : Str
  pub raw_query : Str

-- `url_parse` is `url.Parse`, `dir` is `filepath.Dir`.
module _ (url_parse : Str → Option Url) (dir : Str → Str) where
  unfoldable pub db_dir_of_url : Url → Str
  db_dir_of_url u =
      if contains_text u.raw_query (codes "mode=memory")
        || (u.opaque_part == codes ":memory:" || u.path == codes ":memory:")
      then []
      else if is_empty u.opaque_part
      then dir u.path
      else dir u.opaque_part

  unfoldable pub db_dir : Str → Str
  db_dir path =
      if is_empty path || path == codes ":memory:"
      then []
      else if has_prefix path (codes "file:")
      then elim (url_parse path) [ none ↦ [] | some u ↦ db_dir_of_url u ]
      else dir path

  -- `ensureDBDir`: the directory that is made, none where nothing is.
  unfoldable pub ensure_db_dir : Str → Option Str
  ensure_db_dir path = let d = db_dir path in if is_empty d || d == codes "." then none else some d
