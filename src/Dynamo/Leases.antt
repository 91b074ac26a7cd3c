-- ===== src/Dynamo/Leases.antt =====
-- The leases that internal/store/dynamodb/dynamodb_store.go keeps in the table, against any DynamoDB
-- that keeps the laws of Dynamo/Server.antt. Requests may fail.
use quorum_quest.Prelude.{
  ℕ, ℤ, pos, plus, ltb_ℤ, Bool, true, false, not, ◌&&◌, ◌||◌, false≢true, String, str_eq, text_ne,
  refl, sym, ◌≡◌, ◌≢◌, ◌⊎◌, Option, none, some, arith,
}
use quorum_quest.Program.{Server, execute}
use quorum_quest.Lease.{no_lease}
use quorum_quest.Dynamo.{
  text, number, Item, Condition, may_take, lock_item, equal, Request, Reply, get_item, Store,
  lock_key, resolve_ttl, owns_lock, try_acquire_lock, release_lock, keep_alive,
}
use quorum_quest.Dynamo.Server.{IsMeaning, IsDynamo, IsFresh, is_none, attribute}

-- The lock that an item of the table stands for: its client and the moment it runs out.
pub record Holds (i : Option Item) (client : String) (expiry : ℤ) : Type 0 where
  pub keyed : is_none (attribute i "PK") ≡ false
  pub of_client : attribute i "ClientID" ≡ some (text client)
  pub until : attribute i "ExpiresAt" ≡ some (number expiry)

pub lock_item_pk :
    (pk client : String) (expiry : ℤ) → lock_item pk client expiry "PK" ≡ some (text pk)
lock_item_pk pk client expiry = ground arith

pub lock_item-Holds :
    (pk client : String) (expiry : ℤ) → Holds (some (lock_item pk client expiry)) client expiry
lock_item-Holds pk client expiry = ground (
  arith,
  text_ne "ClientID" "PK" refl,
  text_ne "ExpiresAt" "PK" refl,
  text_ne "ExpiresAt" "ClientID" refl,
)

module _ (meets : Condition → Option Item → Bool) (M : IsMeaning meets) where
  -- The condition of `TryAcquireLock` for a lock that is held.
  pub may_take_held :
      (i : Option Item) (holder client : String) (expiry : ℤ) (now : ℕ)
      → Holds i holder expiry
      → meets (may_take client now) i
        ≡ (ltb_ℤ expiry (pos now) || (str_eq holder client && not (ltb_ℤ expiry (pos now))))
  may_take_held i holder client expiry now h = simp (
    M.on_either, M.on_both, M.on_not_exists, M.on_less, M.on_equal, M.on_at_least, h.keyed,
    h.of_client, h.until,
  )

  pub may_take_free : (client : String) (now : ℕ) → meets (may_take client now) none ≡ true
  may_take_free client now = simp (M.on_either, M.on_not_exists)

  pub equal_held :
      (i : Option Item) (holder client : String) (expiry : ℤ)
      → Holds i holder expiry
      → meets (equal "ClientID" (text client)) i ≡ str_eq holder client
  equal_held i holder client expiry h = simp (M.on_equal, h.of_client)

  pub equal_free : (client : String) → meets (equal "ClientID" (text client)) none ≡ false
  equal_free client = simp M.on_equal

pub owns_lock_held :
    (i : Option Item) (holder client : String) (expiry : ℤ)
    → Holds i holder expiry
    → owns_lock i client ≡ str_eq holder client
unfolding owns_lock
owns_lock_held none holder client expiry h = absurd (false≢true (sym h.keyed))
owns_lock_held (some i) holder client expiry h = rw h.of_client

module _ (S : Server Request Reply) (item : S.State → String → String → Option Item)
    (meets : Condition → Option Item → Bool) (D : IsDynamo S item meets) (s : Store) (now : ℕ)
    (service domain a : String) (ttl : ℤ) where
  abbrev pk : String
  pk = lock_key service domain

  abbrev expiry_time : ℤ
  expiry_time = plus now (resolve_ttl s ttl)

  -- A granted lock is the caller's until `now` plus the lease. The lock of another client is taken over
  -- only if it has run out.
  pub try_acquire_lock_leases :
      (st : S.State) (holder : String) (expiry : ℤ)
      → Holds (item st s.table_name (lock_key service domain)) holder expiry
      → (execute S (try_acquire_lock s now service domain a ttl) st).0 ≡ true
      → ((ltb_ℤ expiry (pos now) ≡ true) ⊎ (holder ≡ a))
        × Holds
            (item
              (execute S (try_acquire_lock s now service domain a ttl) st).1
              s.table_name
              (lock_key service domain))
            a
            (plus now (resolve_ttl s ttl))
  unfolding try_acquire_lock
  try_acquire_lock_leases st holder expiry h granted = ground (
    arith,
    D.on_put st s.table_name pk (lock_item pk a expiry_time) (may_take a now)
        (lock_item_pk pk a expiry_time),
    may_take_held meets D.meaning (item st s.table_name pk) holder a expiry now h,
    lock_item-Holds pk a expiry_time,
  )

  module _ (st : S.State) (b : String) (expiry : ℤ)
      (held : Holds (item st s.table_name (lock_key service domain)) b expiry) (other : b ≢ a) where
    pub try_acquire_lock-foreign :
        ltb_ℤ expiry (pos now) ≡ false
        → let (r, st') = execute S (try_acquire_lock s now service domain a ttl) st in
          (r ≡ false)
          × (item st' s.table_name (lock_key service domain)
              ≡ item st s.table_name (lock_key service domain))
    unfolding try_acquire_lock
    try_acquire_lock-foreign valid = ground (
      arith,
      D.on_put st s.table_name pk (lock_item pk a expiry_time) (may_take a now)
          (lock_item_pk pk a expiry_time),
      may_take_held meets D.meaning (item st s.table_name pk) b a expiry now held,
    )

    pub keep_alive-foreign :
        let (r, st') = execute S (keep_alive s now service domain a ttl) st in
        (r ≡ no_lease)
        × (item st' s.table_name (lock_key service domain)
            ≡ item st s.table_name (lock_key service domain))
    unfolding keep_alive
    keep_alive-foreign = ground (
      arith,
      D.on_update st s.table_name pk "ExpiresAt" (number expiry_time) (equal "ClientID" (text a))
          (equal_free meets D.meaning a),
      equal_held meets D.meaning (item st s.table_name pk) b a expiry held,
    )

    pub release_lock-foreign :
        IsFresh S item
        → item
            (execute S (release_lock s service domain a) st).1
            s.table_name
            (lock_key service domain)
          ≡ item st s.table_name (lock_key service domain)
    unfolding release_lock
    release_lock-foreign F = ground (
      arith,
      F.on_get st s.table_name pk,
      D.get_frame st s.table_name pk s.table_name pk,
      owns_lock_held (item st s.table_name pk) b a expiry held,
    )

  module _ (st : S.State) (j : String) (n : j ≢ lock_key service domain) where
    try_acquire_lock-frame :
        item (execute S (try_acquire_lock s now service domain a ttl) st).1 s.table_name j
        ≡ item st s.table_name j
    unfolding try_acquire_lock
    try_acquire_lock-frame = ground (
      arith,
      D.put_frame st s.table_name pk (lock_item pk a expiry_time) (may_take a now) j
          (lock_item_pk pk a expiry_time) n,
    )

    release_lock-frame :
        item (execute S (release_lock s service domain a) st).1 s.table_name j
        ≡ item st s.table_name j
    unfolding release_lock
    release_lock-frame =
        let st' = (S.handle (get_item s.table_name pk) st).1 in
        ground (
          arith,
          D.get_frame st s.table_name pk s.table_name j,
          D.delete_frame st' s.table_name pk j n,
        )

    keep_alive-frame :
        item (execute S (keep_alive s now service domain a ttl) st).1 s.table_name j
        ≡ item st s.table_name j
    unfolding keep_alive
    keep_alive-frame = ground (
      arith,
      D.update_frame st s.table_name pk "ExpiresAt" (number expiry_time) (equal "ClientID" (text a))
          j n,
    )

    -- No lock call, failing or not, changes another item of the table.
    pub other_items_kept :
        (item (execute S (try_acquire_lock s now service domain a ttl) st).1 s.table_name j
          ≡ item st s.table_name j)
        × (item (execute S (release_lock s service domain a) st).1 s.table_name j
            ≡ item st s.table_name j)
        × (item (execute S (keep_alive s now service domain a ttl) st).1 s.table_name j
            ≡ item st s.table_name j)
    other_items_kept = (try_acquire_lock-frame, release_lock-frame, keep_alive-frame)
