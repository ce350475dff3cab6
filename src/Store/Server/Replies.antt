-- ===== src/Store/Server/Replies.antt =====
-- The text of a reply: response.go of until/store/server.
use raft_project.Common.{List, [], ◌∷◌, ◌++◌}
use raft_project.Common.Tests.{◌==◌, if◌then◌else◌}
use raft_project.Common.Lists.{Bytes, codes, length}
use raft_project.Store.Server.{
  Format, Reply, resp_error, resp_integer, resp_simple, resp_bulk, resp_array,
}

-- `PrintfLine`, which ends a line.
abbrev pub line : Bytes → Bytes
line s = s ++ b'\r' ∷ b'\n' ∷ []

-- A length, as `%v` prints an `int`.
unfoldable pub bulk_text : Format → Bytes → Bytes
bulk_text f s =
    if length s == 0
    then line (codes "$-1")
    else line (codes "$" ++ f.show_int (length s)) ++ line s

unfoldable pub bulk_texts : Format → List Bytes → Bytes
bulk_texts f [] = []
bulk_texts f (s ∷ ss) = bulk_text f s ++ bulk_texts f ss

unfoldable pub reply_text : Format → Reply → Bytes
reply_text f (resp_error e) = line (codes "-Error " ++ e)
reply_text f (resp_integer n) = line (codes ":" ++ f.show_int n)
reply_text f (resp_simple s) = line (codes "+" ++ s)
reply_text f (resp_bulk s) = bulk_text f s
reply_text f (resp_array ss) = line (codes "*" ++ f.show_int (length ss)) ++ bulk_texts f ss
