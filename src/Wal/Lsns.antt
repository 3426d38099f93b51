-- ===== src/Wal/Lsns.antt =====
-- The log sequence numbers of records (crates/eidolon-world/src/wal.rs).
use eidolon.Base.{
  ℕ, zero, suc, ◌+◌, ◌≤◌, ◌≡◌, refl, List, [], ◌∷◌, ◌++◌, some, arith, length, take, drop,
}
use eidolon.Wal.Record.{WalRecord}
use eidolon.Wal.Journal.{last, raised}

-- The records carry the numbers from `d + 1` to `c`, in this order.
abbrev pub Lsns : ℕ → List WalRecord → ℕ → Type 0
Lsns d [] c = d ≡ c
Lsns d (r ∷ q) c = (r.lsn ≡ d + 1) × Lsns (d + 1) q c

pub Lsns-length : (d : ℕ) (q : List WalRecord) (c : ℕ) → Lsns d q c → d + length q ≡ c
Lsns-length d [] c h = omega (arith, h)
Lsns-length d (r ∷ q) c (e, h) = omega (arith, Lsns-length (d + 1) q c h)

-- A split of the records.
pub Lsns-split :
    (d n : ℕ) (q : List WalRecord) (c : ℕ)
    → Lsns d q c
    → n ≤ length q
    → Lsns d (take n q) (d + n) × Lsns (d + n) (drop n q) c
Lsns-split d zero q c h le = (omega arith, let e : d + 0 ≡ d = omega arith in rw e h)
Lsns-split d (suc n) [] c h le = absurd (omega arith)
Lsns-split d (suc n) (r ∷ q) c (e, h) le =
    let same : d + suc n ≡ d + 1 + n = omega arith in
    let (front, back) = Lsns-split (d + 1) n q c h (omega arith) in rw same ((e, front), back)

pub Lsns-append :
    (d m : ℕ) (p q : List WalRecord) (c : ℕ) → Lsns d p m → Lsns m q c → Lsns d (p ++ q) c
Lsns-append d m [] q c h k = rw h k
Lsns-append d m (r ∷ p) q c (e, h) k = (e, Lsns-append (d + 1) m p q c h k)

last-Lsns :
    (d : ℕ) (r : WalRecord) (q : List WalRecord) (c : ℕ)
    → Lsns d (r ∷ q) c
    → (x : WalRecord) × (last (r ∷ q) ≡ some x) × (x.lsn ≡ c)
last-Lsns d r [] c (e, h) = (r, refl, omega (arith, e, h))
last-Lsns d r (r' ∷ q) c (e, h) = last-Lsns (d + 1) r' q c h

-- A batch raises `durable_lsn` to the number of its last record.
pub raised-Lsns : (d : ℕ) (batch : List WalRecord) (c : ℕ) → Lsns d batch c → raised d batch ≡ c
unfolding raised
raised-Lsns d [] c h = h
raised-Lsns d (r ∷ q) c h =
    let (x, e, at) = last-Lsns d r q c h in ground (arith, e, at, Lsns-length d (r ∷ q) c h)
