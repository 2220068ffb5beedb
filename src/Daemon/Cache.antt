-- ===== src/Daemon/Cache.antt =====
-- mgmtd/http/HttpCache.cpp: the files of the web pages. The file system is an argument.
use nf_engine.Prelude.{◌-◌, ◌++◌, Bool, false, Option, none, some, length, drop, ltb, if◌then◌else◌}
use nf_engine.Prelude.Texts.{Text, codes, same_bytes}

pub record Entry : Type 0 where
  pub content_type : Text
  pub body : Text

unfoldable pub has_extension : Text → Text → Bool
unfolding same_bytes
has_extension path ext =
    if ltb (length path) (length ext)
    then false
    else same_bytes (drop (length path - length ext) path) ext

-- The file and the type of a path.
unfoldable pub file_path : Text → Text → Text
unfolding same_bytes
file_path base path =
    if same_bytes path (codes "/") then base ++ codes "/index.html" else base ++ path

unfoldable pub content_type : Text → Text
unfolding same_bytes has_extension
content_type path =
    if same_bytes path (codes "/")
    then codes "text/html"
    else if has_extension path (codes ".html")
    then codes "text/html"
    else if has_extension path (codes ".js")
    then codes "application/javascript"
    else if has_extension path (codes ".css")
    then codes "text/css"
    else codes "text/plain"

-- `get`, with the file system's answer; `none` of it is the exception of `loadFile`.
unfoldable pub get : Text → (Text → Option Text) → Text → Option Entry
unfolding file_path content_type
get base load path = elim (load (file_path base path)) [
  | none ↦ none
  | some bytes ↦ some (record { content_type = content_type path; body = bytes })
]
