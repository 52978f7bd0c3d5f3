-- ===== src/Consumption/Sqlite.antt =====
-- `SQLiteConsumptionStore`: a table with the capability id as primary key, each claim in a
-- transaction of its own. `BEGIN IMMEDIATE` takes the database's write lock, so claims do not
-- overlap. A wait for that lock beyond the connection's timeout, and SQLite's limit on the length of a
-- text, are not modelled.
use execution_finality_for_a.Prelude.{
  ℕ, ◌^◌, ◌-◌, ℤ, pos, negsuc, leb_ℤ, ◌≤ℤ◌, ◌&&◌, ◌⊎◌, inl, inr, refl, Bool-cases, Str, str_eq,
  ◌==◌, lookup, lookup-insert, is_some, Bool, ◌||◌, List, [], ◌∷◌, Option, none, some,
  if◌then◌else◌, ◌≡◌, arith, ap,
}
use execution_finality_for_a.Errors.{Error, Replay, Result, ok, err}
use execution_finality_for_a.Exec.{Exec}
use execution_finality_for_a.Canonical.{has_surrogate}
use execution_finality_for_a.Canonical.Clean.{Clean}
use execution_finality_for_a.Consumption.Interface.{Claim, ConsumptionStore}
use execution_finality_for_a.Consumption.Memory
use execution_finality_for_a.Consumption.Memory.{Claims}

-- A row of the table `consumed`.
pub record Row : Type 0 where
  pub capability_id : Str
  pub claim : Claim

-- The database file: the rows that are committed, and those of an open transaction.
pub record Database : Type 0 where
  pub rows : List Row
  pub pending : Option (List Row)

-- The constructor: CREATE TABLE IF NOT EXISTS keeps a table that is there.
unfoldable pub create_table : Option Database → Database
create_table none = record { rows = []; pending = none }
create_table (some db) = db

-- SELECT … WHERE capability_id = ?
unfoldable pub select : Str → List Row → Option Claim
select k [] = none
select k (r ∷ rs) = if k == r.capability_id then some r.claim else select k rs

unfoldable pub begin_immediate : Database → Database
begin_immediate db = record db { pending = some db.rows }

-- The range of SQLite's INTEGER.
abbrev pub max_int64 : ℕ
max_int64 = 2 ^ 63 - 1

abbrev fits_int64 : ℤ → Bool
fits_int64 n = leb_ℤ (negsuc max_int64) n && leb_ℤ n (pos max_int64)

-- The parameters of the INSERT are bound in order, each text as UTF-8, and the time as an INTEGER: the
-- exception that this raises, if it does.
unfoldable pub bind_fault : Row → Option Error
bind_fault r =
    if has_surrogate r.capability_id
      || has_surrogate r.claim.sink_id
      || has_surrogate r.claim.boundary_id
      || has_surrogate r.claim.nonce
    then some Error.unicode_encode_error
    else if fits_int64 r.claim.now_ns
    then none
    else some Error.overflow_error

-- INSERT: `none` is sqlite3.IntegrityError, raised where the primary key is taken.
unfoldable pub insert_row : Row → List Row → Option (List Row)
insert_row r rs = if is_some (select r.capability_id rs) then none else some (r ∷ rs)

-- The rows that a statement sees: those of the open transaction.
abbrev current : Database → List Row
current db = elim db.pending [ none ↦ db.rows | some rs ↦ rs ]

unfoldable pub rollback : Database → Database
rollback db = record db { pending = none }

unfoldable pub commit : Database → Database
commit db = record { rows = current db; pending = none }

-- The `except` branch, and the `else` branch, of the insertion.
abbrev finish : Option (List Row) → Exec Database (Unit {0})
finish none db = (err (Error.replay_detected Replay.capability_consumed), rollback db)
finish (some rs) db = (ok tt, commit (record db { pending = some rs }))

-- `conn.close()` drops an open transaction.
unfoldable pub close : Database → Database
close db = record db { pending = none }

-- The insertion; an exception that is no IntegrityError goes on to the caller.
abbrev insertion : Row → Exec Database (Unit {0})
insertion r db = elim (bind_fault r) [
  | some raised ↦ (err raised, db)
  | none ↦ finish (insert_row r (current db)) db
]

unfoldable pub claim : Str → Claim → Exec Database (Unit {0})
unfolding begin_immediate insert_row rollback commit close
claim capability_id c db =
    let (r, after) =
      insertion (record { capability_id = capability_id; claim = c }) (begin_immediate db) in
    (r, close after)

-- Whether the committed table has a row of this id.
unfoldable pub has_row : Str → Database → Bool
has_row capability_id db = is_some (select capability_id db.rows)

-- The parameter of the SELECT is bound as UTF-8 too.
unfoldable pub is_claimed : Str → Database → Result Bool
unfolding has_row
is_claimed capability_id db =
    if has_surrogate capability_id
    then err Error.unicode_encode_error
    else ok (has_row capability_id db)

-- What the table holds is observed without a connection.
abbrev pub sqlite_store : ConsumptionStore Database
sqlite_store = record { claim = claim; is_claimed = has_row }

-- The table and a dict hold the same claims, and no transaction is open.
pub record Represents (db : Database) (s : Claims) : Type 0 where
  pub idle : db.pending ≡ none
  pub claims : (k : Str) → select k db.rows ≡ lookup k s

-- No text of the claim has a surrogate; and its time fits in 64 bits.
abbrev pub CleanTexts : Str → Claim → Type 0
CleanTexts k c = Clean k × Clean c.sink_id × Clean c.boundary_id × Clean c.nonce

abbrev pub InInt64 : ℤ → Type 0
InInt64 n = (negsuc 9223372036854775807 ≤ℤ n) × (n ≤ℤ pos 9223372036854775807)

module _ (k : Str) (c : Claim) (db : Database) where
  abbrev fault : Option Error
  fault = bind_fault (record { capability_id = k; claim = c })

  fault_cases :
      (CleanTexts k c × InInt64 c.now_ns × (fault ≡ none))
      ⊎ ((¬ (CleanTexts k c)) × (fault ≡ some Error.unicode_encode_error))
      ⊎ ((¬ (InInt64 c.now_ns)) × (fault ≡ some Error.overflow_error))
  unfolding bind_fault
  fault_cases =
      let texts =
        has_surrogate k
        || has_surrogate c.sink_id
        || has_surrogate c.boundary_id
        || has_surrogate c.nonce in
      elim (Bool-cases texts) [
        | inl dirty ↦ inr (inl ((λ clean. ground (arith, dirty, clean)), rw dirty refl))
        | inr clean ↦ elim (Bool-cases (fits_int64 c.now_ns)) [
          | inl fits ↦ inl (ground (arith, clean), ground (arith, fits), rw (clean, fits) refl)
          | inr far ↦ inr (inr ((λ near. ground (arith, far, near)), rw (clean, far) refl))
        ]
      ]

  -- A claim that SQLite can bind: what `claim` does to the committed rows.
  claim_bound :
      fault ≡ none
      → claim k c db ≡ (
        if has_row k db then err (Error.replay_detected Replay.capability_consumed) else ok tt,
        record {
          rows =
              if has_row k db then db.rows else record { capability_id = k; claim = c } ∷ db.rows;
          pending = none;
        },
      )
  unfolding claim has_row
  claim_bound h = ground (arith, h)

  claim_unbound :
      (x : Error) → fault ≡ some x → claim k c db ≡ (err x, record db { pending = none })
  unfolding claim
  claim_unbound x h = ground (arith, h)

module _ (k : Str) (c : Claim) (db : Database) (s : Claims) where
  -- Between a table and a dict that hold the same claims. A claim whose texts have no surrogate and
  -- whose time fits in 64 bits ends on the table as on the dict, and they go on holding the same
  -- claims. Any other claim raises, `UnicodeEncodeError` for a text and `OverflowError` for the time,
  -- and leaves the claims of the table as they were.
  pub claim-refines :
      Represents db s
      → ((CleanTexts k c × InInt64 c.now_ns)
          × ((claim k c db).0 ≡ (Memory.claim k c s).0)
          × Represents (claim k c db).1 (Memory.claim k c s).1)
        ⊎ ((¬ (CleanTexts k c))
            × ((claim k c db).0 ≡ err Error.unicode_encode_error)
            × Represents (claim k c db).1 s)
        ⊎ ((¬ (InInt64 c.now_ns))
            × ((claim k c db).0 ≡ err Error.overflow_error)
            × Represents (claim k c db).1 s)
  unfolding Memory.claim select has_row
  claim-refines r = elim (fault_cases k c db) [
    | inl (clean, near, h) ↦
        let bound = claim_bound k c db h in
        inl (
          (clean, near),
          ground (arith, bound, r.claims k),
          record {
            idle = ap (λ (x : Result (Unit {0}) × Database). x.1.pending) bound;
            claims = λ j. ground (arith, bound, r.claims k, r.claims j, lookup-insert j k c s);
          },
        )
    | inr (inl (dirty, h)) ↦
        let raised = claim_unbound k c db Error.unicode_encode_error h in
        inr (
          inl (
            dirty,
            ap (λ (x : Result (Unit {0}) × Database). x.0) raised,
            rw raised (record { idle = refl; claims = r.claims }),
          ))
    | inr (inr (far, h)) ↦
        let raised = claim_unbound k c db Error.overflow_error h in
        inr (
          inr (
            far,
            ap (λ (x : Result (Unit {0}) × Database). x.0) raised,
            rw raised (record { idle = refl; claims = r.claims }),
          ))
  ]

  -- The SELECT answers as the dict does, and raises for an id that is no UTF-8.
  is_claimed-refines :
      Represents db s
      → is_claimed k db
        ≡ (if has_surrogate k then err Error.unicode_encode_error else ok (Memory.is_claimed k s))
  unfolding is_claimed has_row Memory.is_claimed
  is_claimed-refines r = ground (arith, r.claims k)
