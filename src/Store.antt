-- ===== src/Store.antt =====
-- internal/store/store.go and internal/store/errors.go: the record of a service with its JSON, and the
-- errors that the stores share.
pub mod Errors
mod Tests
use quorum_quest.Prelude.{ℤ, pos, String, ◌≡◌, arith}
use quorum_quest.Program.{Result, ok, err}

-- `ServiceRecord`, and the struct without methods that stands for it in its JSON, which has the same
-- fields under the same tags. The timestamp is an int64.
pub record ServiceRecord : Type 0 where
  pub id : String
  pub name : String
  pub status : String
  pub timestamp : ℤ

pub record Document : Type 0 where
  pub id : String
  pub name : String
  pub status : String
  pub timestamp : ℤ

abbrev pub empty_document : Document
empty_document = record { id = ""; name = ""; status = ""; timestamp = pos 0 }

-- `json.Marshal` of the struct.
unfoldable pub marshal_json :
    {Bytes : Type 0} → (Document → Result String Bytes) → ServiceRecord → Result String Bytes
marshal_json marshal r =
    marshal (record { id = r.id; name = r.name; status = r.status; timestamp = r.timestamp })

-- `UnmarshalJSON`, with its error and the record past it. `json.Unmarshal` reads the bytes over the struct
-- that it is given.
unfoldable pub unmarshal_json :
    {Bytes : Type 0}
    → (Bytes → Document → Result String Document)
    → Bytes
    → ServiceRecord
    → Result String ServiceRecord × ServiceRecord
unmarshal_json unmarshal bytes r = elim (unmarshal bytes empty_document) [
  | err m ↦ (err m, r)
  | ok v ↦
      let r' : ServiceRecord = record {
        id = v.id;
        name = v.name;
        status = v.status;
        timestamp = v.timestamp;
      } in
      (ok r', r')
]

-- Where `json.Unmarshal` reads back what `json.Marshal` wrote of the struct, whatever it is read over, a
-- record comes back from its bytes, and replaces every field of the record that it is read into.
pub unmarshal_json-marshal_json :
    {Bytes : Type 0} (marshal : Document → Result String Bytes)
    (unmarshal : Bytes → Document → Result String Document) (r old : ServiceRecord) (bytes : Bytes)
    → ((v w : Document) (b : Bytes) → marshal v ≡ ok b → unmarshal b w ≡ ok v)
    → marshal_json marshal r ≡ ok bytes
    → unmarshal_json unmarshal bytes old ≡ (ok r, r)
unfolding marshal_json unmarshal_json
unmarshal_json-marshal_json marshal unmarshal r old bytes law sent = ground (
  arith,
  law (record { id = r.id; name = r.name; status = r.status; timestamp = r.timestamp })
      empty_document bytes sent,
)
