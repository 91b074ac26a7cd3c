-- ===== src/Scylla/Server.antt =====
-- What internal/store/scylladb relies on of ScyllaDB and gocql, as documented, for the three statements
-- that it runs on a lock. `row s sv d` is the row of table `t` with primary key `(sv, d)` in state
-- `s`: its client, and the moment when its time to live is over; a row whose time is over is gone.
use quorum_quest.Prelude.{ℤ, String, ◌<>◌, ◌≡◌, ◌≢◌, ◌⊎◌, Option, none, some, [], ◌∷◌}
use quorum_quest.Program.{Result, ok, err, Server}
use quorum_quest.Scylla.{text, number, Request, Reply, exec, scan, Error, not_found, other, Store}

abbrev pub Row : Type 0
Row = String × ℤ

abbrev pub client_of : Option Row → Option String
client_of none = none
client_of (some (client, expiry)) = some client

abbrev pub insert_text : String → String
insert_text t =
    "INSERT INTO " <> t
    <> " (service, domain, client_id) VALUES (?, ?, ?) IF NOT EXISTS USING TTL ?"

abbrev pub select_text : String → String
select_text t =
    "SELECT client_id FROM " <> t
    <> " WHERE service = ? AND domain = ? AND client_id = ? ALLOW FILTERING"

abbrev pub delete_text : String → String
delete_text t = "DELETE FROM " <> t <> " WHERE service = ? AND domain = ?"

-- The store's statements are those, for its table.
pub record IsPrepared (s : Store) : Type 0 where
  pub inserts : s.try_acquire_lock_query ≡ insert_text s.full_table_name
  pub selects : s.validate_lock_query ≡ select_text s.full_table_name
  pub deletes : s.release_lock_query ≡ delete_text s.full_table_name

-- A conditional insertion that finds a row changes nothing, and its `Exec` returns no error.
-- A request that fails may have been carried out, or not.
abbrev pub InsertTells : String → Option Row → Option Row → Result Error (Unit {0}) → Type 0
InsertTells client none after (ok u) = client_of after ≡ some client
InsertTells client (some r) after (ok u) = after ≡ some r
InsertTells client before after (err e) =
    (after ≡ before) ⊎ ((before ≡ none) × (client_of after ≡ some client))

-- A selection by the client's name finds the name of that client only, in a row that may be out of date.
abbrev pub SelectNames : String → Result Error String → Type 0
SelectNames client (ok c) = c ≡ client
SelectNames client (err e) = Unit {0}

-- One that is up to date finds the row as it is.
abbrev pub SelectTells : String → Option Row → Result Error String → Type 0
SelectTells client before (ok c) = (c ≡ client) × (client_of before ≡ some client)
SelectTells client before (err not_found) = client_of before ≢ some client
SelectTells client before (err (other m)) = Unit {0}

abbrev pub DeleteTells : Option Row → Option Row → Result Error (Unit {0}) → Type 0
DeleteTells before after (ok u) = after ≡ none
DeleteTells before after (err e) = (after ≡ before) ⊎ (after ≡ none)

abbrev pub Answers : {A : Type 0} → Result Error A → Type 0
Answers (ok a) = Unit {0}
Answers (err e) = ⊥

abbrev pub SelectAnswers : Result Error String → Type 0
SelectAnswers (ok c) = Unit {0}
SelectAnswers (err not_found) = Unit {0}
SelectAnswers (err (other m)) = ⊥

abbrev pub insert : String → String → String → String → ℤ → Request
insert t sv d c ttl = exec (insert_text t) (text sv ∷ text d ∷ text c ∷ number ttl ∷ [])

abbrev pub select : String → String → String → String → Request
select t sv d c = scan (select_text t) (text sv ∷ text d ∷ text c ∷ [])

abbrev pub delete : String → String → String → Request
delete t sv d = exec (delete_text t) (text sv ∷ text d ∷ [])

module _ (S : Server Request Reply) (t : String)
    (row : S.State → String → String → Option Row) where
  pub record IsScylla : Type 0 where
    pub on_insert :
        (s : S.State) (sv d c : String) (ttl : ℤ)
        → let (r, s') = S.handle (insert t sv d c ttl) s in
          InsertTells c (row s sv d) (row s' sv d) r
    pub on_select : (s : S.State) (sv d c : String) → SelectNames c (S.handle (select t sv d c) s).0
    pub on_delete :
        (s : S.State) (sv d : String)
        → let (r, s') = S.handle (delete t sv d) s in DeleteTells (row s sv d) (row s' sv d) r
    -- No statement touches a row with another primary key, and a selection none at all.
    pub insert_frame :
        (s : S.State) (sv d c : String) (ttl : ℤ) (u e : String)
        → (u ≢ sv) ⊎ (e ≢ d)
        → row (S.handle (insert t sv d c ttl) s).1 u e ≡ row s u e
    pub select_frame :
        (s : S.State) (sv d c u e : String) → row (S.handle (select t sv d c) s).1 u e ≡ row s u e
    pub delete_frame :
        (s : S.State) (sv d u e : String)
        → (u ≢ sv) ⊎ (e ≢ d)
        → row (S.handle (delete t sv d) s).1 u e ≡ row s u e

  -- Selections are up to date, as they are at CONSISTENCY_QUORUM and CONSISTENCY_ALL. At
  -- CONSISTENCY_ONE a replica may answer with an older row.
  pub record IsFresh : Type 0 where
    pub on_select :
        (s : S.State) (sv d c : String)
        → SelectTells c (row s sv d) (S.handle (select t sv d c) s).0

module _ (S : Server Request Reply) (t : String) where
  -- Every statement on a lock is answered. (`ErrNotFound` is an answer of a selection.)
  pub record IsHealthy : Type 0 where
    pub insert_answers :
        (s : S.State) (sv d c : String) (ttl : ℤ) → Answers (S.handle (insert t sv d c ttl) s).0
    pub select_answers :
        (s : S.State) (sv d c : String) → SelectAnswers (S.handle (select t sv d c) s).0
    pub delete_answers : (s : S.State) (sv d : String) → Answers (S.handle (delete t sv d) s).0
