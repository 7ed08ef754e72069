-- ===== src/Context/Cursor.antt =====
-- src/scheduler/cursor.rs: claims and rewinds of the validation cursor in any interleaving.
use grevm.Prelude.{
  ℕ, ◌≡◌, ◌≢◌, ◌≤◌, ◌<◌, Bool, true, Option, none, some, List, [], ◌∷◌, arith, ltb, ◌⊎◌, inl, inr,
  Bool-cases, contains, ltb→lt,
}
use grevm.Context.{Claim, claimed, claim_round, rewind}

-- One shared access to the cursor, with the position that it hands out. A claiming thread may have
-- loaded any earlier value, and its exchange may fail.
pub data Access (cursor : ℕ) : ℕ → Option ℕ → Type 0 where
  claims :
      {cursor' : ℕ} (limit seen : ℕ) (spurious : Bool) (i : ℕ)
      → claim_round limit seen cursor spurious ≡ (cursor', claimed i)
      → Access cursor cursor' (some i)
  misses :
      {cursor' : ℕ} (limit seen : ℕ) (spurious : Bool) (c : Claim)
      → ((i : ℕ) → c ≢ claimed i)
      → claim_round limit seen cursor spurious ≡ (cursor', c)
      → Access cursor cursor' none
  rewinds :
      {cursor' : ℕ} (value : ℕ) → cursor' ≡ (rewind cursor value).0 → Access cursor cursor' none

abbrev pub logged : Option ℕ → List ℕ → List ℕ
logged none log = log
logged (some i) log = i ∷ log

-- A run of accesses from `start`, with the positions handed out.
pub data Run (start : ℕ) : ℕ → List ℕ → Type 0 where
  begin : Run start start []
  access :
      {cursor cursor' : ℕ} {log : List ℕ} {o : Option ℕ}
      → Run start cursor log
      → Access cursor cursor' o
      → Run start cursor' (logged o log)

Access-passes :
    {cursor cursor' : ℕ} {o : Option ℕ} (i : ℕ)
    → Access cursor cursor' o
    → cursor ≤ i
    → i < cursor'
    → o ≡ some i
unfolding claim_round rewind
Access-passes i (claims limit seen spurious j e) lo hi = ground arith
Access-passes i (misses limit seen spurious c other e) lo hi = absurd (ground (arith, other seen))
Access-passes i (rewinds value e) lo hi = absurd (omega (arith, e))

contains-logged :
    (o : Option ℕ) (log : List ℕ) (i : ℕ)
    → (o ≡ some i) ⊎ (contains log i ≡ true)
    → contains (logged o log) i ≡ true
contains-logged none log i h = ground arith
contains-logged (some j) log i h = ground arith

-- Once the cursor stands at or before `i`, by a rewind or otherwise, it passes `i` only by handing `i`
-- out: rewound work is always claimed again.
pub Run-claims :
    {start cursor : ℕ} {log : List ℕ} (i : ℕ)
    → Run start cursor log
    → start ≤ i
    → i < cursor
    → contains log i ≡ true
Run-claims i begin lo hi = absurd (omega arith)
Run-claims i (access {cursor} {cursor'} {log} {o} r a) lo hi = elim (Bool-cases (ltb i cursor)) [
  | inl passed ↦ contains-logged o log i (inr (Run-claims i r lo (ltb→lt i cursor passed)))
  | inr not_yet ↦ contains-logged o log i (inl (Access-passes i a (ground arith) hi))
]
