-- ===== src/Lsp/Tests.antt =====
-- The theorems on src/gz_lsp_client.cpp at concrete inputs.
use gzscript.Base.{ℕ, ◌≡◌, List, [], ◌∷◌, ◌++◌, Bytes, codes, some}
use gzscript.Base.Assoc.{lookup}
use gzscript.Lsp.{Query, Document, caret_mark, make_query, synchronize}
use gzscript.Lsp.Documents.{receive_any, receive-synchronize}

abbrev code : Bytes
code = codes "a" ++ 10 ∷ codes "b." ++ caret_mark ∷ 10 ∷ []

abbrev as_uri : Bytes → Bytes
as_uri path = codes "file://" ++ path

abbrev query : Query
query = make_query as_uri code (codes "/a.zig")

abbrev documents : List (Bytes × Document)
documents = (codes "file:///a.zig", record { source = []; version = 4 }) ∷ []

receive-synchronize_example :
    (receive_any (synchronize query documents).0 documents ≡ some (synchronize query documents).1)
    × ((version : ℕ) × (lookup query.uri (synchronize query documents).1
          ≡ some (record { source = query.source; version = version })))
receive-synchronize_example = receive-synchronize query documents
