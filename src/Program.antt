-- ===== src/Program.antt =====
-- Handlers as programs that call an outside service, one request at a time.
-- A handler of internal/store is a tree: it asks the service, looks at the reply, and goes on. The
-- service itself (Redis, DynamoDB, ScyllaDB) is a parameter, so that other clients may act between
-- two of a handler's requests.
use quorum_quest.Prelude.{String, List, [], ◌∷◌, ◌≡◌}

-- Go's `(value, error)` results.
pub data Result (E A : Type 0) : Type 0 where
  ok : A → Result E A
  err : E → Result E A

pub data Level : Type 0 where
  debug info error : Level

pub data Program (Req : Type 0) (Rep : Req → Type 0) (A : Type 0) : Type 0 where
  done : A → Program Req Rep A
  call : (r : Req) → (Rep r → Program Req Rep A) → Program Req Rep A
  log : Level → String → Program Req Rep A → Program Req Rep A

-- The service at the other end of the client's connection.
pub record Server (Req : Type 0) (Rep : Req → Type 0) : Type 1 where
  pub State : Type 0
  pub handle : (r : Req) → State → Rep r × State

module _ {Req : Type 0} {Rep : Req → Type 0} where
  infixl 5 ◌>>=◌ ◌>>◌
  abbrev pub ◌>>=◌ :
      {A B : Type 0} → Program Req Rep A → (A → Program Req Rep B) → Program Req Rep B
  done a >>= f = f a
  call r k >>= f = call r (λ x. k x >>= f)
  log l m p >>= f = log l m (p >>= f)

  abbrev pub ◌>>◌ :
      {A : Type 0} → Program Req Rep (Unit {0}) → Program Req Rep A → Program Req Rep A
  p >> q = p >>= λ _. q

  abbrev pub request : (r : Req) → Program Req Rep (Rep r)
  request r = call r done

  abbrev pub logs : Level → String → Program Req Rep (Unit {0})
  logs l m = log l m (done tt)

  -- Two programs that send the same request and go on alike for every reply are the same.
  pub call_ext :
      {A : Type 0} {r : Req} {k l : Rep r → Program Req Rep A}
      → ((x : Rep r) → k x ≡ l x)
      → call r k ≡ call r l
  call_ext {r} same = λ i. call r (λ x. same x i)

  module _ (S : Server Req Rep) where
    -- The program alone with the service: no other client acts in between.
    abbrev pub execute : {A : Type 0} → Program Req Rep A → S.State → A × S.State
    execute (done a) s = (a, s)
    execute (call r k) s = let (x, s') = S.handle r s in execute (k x) s'
    execute (log l m p) s = execute p s

    -- The lines that such a run logs.
    abbrev pub logged : {A : Type 0} → Program Req Rep A → S.State → List (Level × String)
    logged (done a) s = []
    logged (call r k) s = let (x, s') = S.handle r s in logged (k x) s'
    logged (log l m p) s = (l, m) ∷ logged p s

    -- The program up to and with its next request.
    abbrev pub advance : {A : Type 0} → Program Req Rep A → S.State → Program Req Rep A × S.State
    advance (done a) s = (done a, s)
    advance (call r k) s = let (x, s') = S.handle r s in (k x, s')
    advance (log l m p) s = advance p s
