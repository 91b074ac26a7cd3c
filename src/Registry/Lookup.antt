-- ===== src/Registry/Lookup.antt =====
-- internal/lockservice/lockservice.go: what the registry gives after a registration or a removal.
use quorum_quest.Prelude.{
  String, str_eq, Bool, true, false, not, ◌||◌, Option, none, some, [], ◌∷◌, ◌≡◌, arith,
  if◌then◌else◌,
}
use quorum_quest.Program.{Result, ok, err}
use quorum_quest.Registry.{
  Constructor, Registry, unknown_constructor, find, register, unregister, construct, new_store,
}

abbrev pub is_err : {A B : Type 0} → Result A B → Bool
is_err (ok b) = false
is_err (err a) = true

abbrev pub is_none {ℓ} : {A : Type ℓ} → Option A → Bool
is_none none = true
is_none (some a) = false

module _ {O E S : Type 0} where
  find-unregister :
      (name other : String) (r : Registry O E S)
      → find other (unregister name r) ≡ (if str_eq name other then none else find other r)
  unfolding find unregister
  find-unregister name other [] = ground arith
  find-unregister name other ((n, c) ∷ rest) = ground (arith, find-unregister name other rest)

  -- No constructor of the registry is nil.
  unfoldable pub is_well_formed : Registry O E S → Bool
  is_well_formed [] = true
  is_well_formed ((n, none) ∷ rest) = false
  is_well_formed ((n, some c) ∷ rest) = is_well_formed rest

  -- Registration keeps a registry free of nil constructors, and removal does.
  pub register-is_well_formed :
      (name : String) (c : Constructor O E S) (r r' : Registry O E S)
      → is_well_formed r ≡ true
      → register name c r ≡ ok r'
      → is_well_formed r' ≡ true
  unfolding register is_well_formed
  register-is_well_formed name c r r' h e = ground arith

  register_cons :
      (name : String) (c : O → Result E S) (r r' : Registry O E S)
      → register name (some c) r ≡ ok r'
      → r' ≡ (name, some c) ∷ r
  unfolding register
  register_cons name c r r' e = ground arith

  -- After a registration that does not panic, the name is constructed by its constructor, every other
  -- name as before, and after its removal the name is unknown.
  pub new_store-register :
      (name other : String) (c : O → Result E S) (options : O) (r r' : Registry O E S)
      → register name (some c) r ≡ ok r'
      → str_eq name other ≡ false
      → (new_store name options r' ≡ construct c options)
        × (new_store other options r' ≡ new_store other options r)
        × (new_store name options (unregister name r') ≡ err (unknown_constructor name))
  unfolding new_store find unregister
  new_store-register name other c options r r' e ne = rw (register_cons name c r r' e) (
    ground (arith, find-unregister name name r),
    ground arith,
    ground (arith, find-unregister name name r),
  )

  -- A registration panics exactly for a nil constructor and for a name that is registered; after a
  -- removal the name can be registered again.
  pub register_panics :
      (name : String) (c : Constructor O E S) (r : Registry O E S)
      → (is_err (register name c r) ≡ (is_none c || not (is_none (find name r))))
        × (is_err (register name c (unregister name r)) ≡ is_none c)
  unfolding register
  register_panics name c r = ground (arith, find-unregister name name r)
