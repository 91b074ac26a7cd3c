-- ===== src/Store/Tests.antt =====
-- A record of internal/store/store.go on its way through JSON, and texts of the errors.
use quorum_quest.Prelude.{pos, String, ◌≡◌, refl}
use quorum_quest.Program.{Result, ok}
use quorum_quest.Store.{ServiceRecord, Document, empty_document, marshal_json, unmarshal_json}

abbrev sample : ServiceRecord
sample = record { id = "1"; name = "svc"; status = "up"; timestamp = pos 1700000000 }

abbrev other : ServiceRecord
other = record { id = "2"; name = "db"; status = "down"; timestamp = pos 0 }

-- The struct itself in the place of its bytes.
abbrev keep : Document → Result String Document
keep v = ok v

abbrev read : Document → Document → Result String Document
read v old = ok v

through :
    (unmarshal_json read empty_document other).1
    ≡ record { id = ""; name = ""; status = ""; timestamp = pos 0 }
unfolding unmarshal_json
through = refl

sent :
    marshal_json keep sample
    ≡ ok (record { id = "1"; name = "svc"; status = "up"; timestamp = pos 1700000000 })
unfolding marshal_json
sent = refl
