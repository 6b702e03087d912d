-- ===== src/Cdc/Scanning.antt =====
-- The scanning loop against the fingerprint of a run of bytes.
use bi_search.Base.{
  ℕ, zero, suc, ◌+◌, ◌≤◌, ◌<◌, bit_and, ◌≡◌, refl, ◌≢◌, ◌⊎◌, inl, inr, arith, Bytes, get_or,
  Bool-cases, ==→eq, ==→ne, ◌==◌,
}
use bi_search.Cdc.{Scan, cut, passed, scan, roll}

-- The fingerprint after `k` more bytes, from index `i` on.
unfoldable pub rolled : Bytes → ℕ → ℕ → ℕ → ℕ
rolled src zero i fp = fp
rolled src (suc k) i fp = rolled src k (i + 1) (roll fp (get_or src i 0))

-- What a finished loop says of the range [i, i + k): either a cut at the first index where the
-- fingerprint meets the mask, or no such index.
pub data Scanned (mask : ℕ) (src : Bytes) (k i fp : ℕ) : Scan → Type 0 where
  at :
      (d : ℕ)
      → d < k
      → bit_and (rolled src (suc d) i fp) mask ≡ 0
      → ((j : ℕ) → j < d → bit_and (rolled src (suc j) i fp) mask ≢ 0)
      → {c : ℕ} → c ≡ i + suc d
      → Scanned mask src k i fp (cut c)
  through :
      ((j : ℕ) → j < k → bit_and (rolled src (suc j) i fp) mask ≢ 0)
      → Scanned mask src k i fp (passed (rolled src k i fp))

extend :
    (mask : ℕ) (src : Bytes) (k i fp : ℕ) {r : Scan}
    → bit_and (roll fp (get_or src i 0)) mask ≢ 0
    → Scanned mask src k (i + 1) (roll fp (get_or src i 0)) r
    → Scanned mask src (suc k) i fp r
unfolding rolled
extend mask src k i fp ne (at d h hit before e) = at (suc d) (omega arith) hit earlier (omega arith)
  where
    earlier : (j : ℕ) → j < suc d → bit_and (rolled src (suc j) i fp) mask ≢ 0
    earlier zero lt = ne
    earlier (suc j) lt = before j (omega arith)
extend mask src k i fp ne (through none_before) = through earlier
  where
    earlier : (j : ℕ) → j < suc k → bit_and (rolled src (suc j) i fp) mask ≢ 0
    earlier zero lt = ne
    earlier (suc j) lt = none_before j (omega arith)

pub scan-Scanned :
    (mask : ℕ) (src : Bytes) (k i fp : ℕ) → Scanned mask src k i fp (scan mask src k i fp)
unfolding scan rolled
scan-Scanned mask src zero i fp = through (λ j h. absurd (omega arith))
scan-Scanned mask src (suc k) i fp = elim (Bool-cases (bit_and fp' mask == 0)) [
  | inl hit ↦
      rw hit (at 0 (omega arith) (==→eq _ _ hit) (λ j h. absurd (omega arith)) (omega arith))
  | inr miss ↦
      rw miss (extend mask src k i fp (==→ne _ _ miss) (scan-Scanned mask src k (i + 1) fp'))
]
  where
    fp' : ℕ
    fp' = roll fp (get_or src i 0)

Scanned-cases :
    {mask : ℕ} {src : Bytes} {k i fp : ℕ} {r : Scan}
    → Scanned mask src k i fp r
    → ((c : ℕ) × (r ≡ cut c) × (i < c) × (c ≤ i + k)) ⊎ (r ≡ passed (rolled src k i fp))
Scanned-cases {i = i} (at d h hit before {c} e) = inl (c, refl, omega arith, omega arith)
Scanned-cases (through none_before) = inr refl

-- A split on how a loop ends.
pub scan_cases :
    (mask : ℕ) (src : Bytes) (k i fp : ℕ)
    → ((c : ℕ) × (scan mask src k i fp ≡ cut c) × (i < c) × (c ≤ i + k))
      ⊎ (scan mask src k i fp ≡ passed (rolled src k i fp))
scan_cases mask src k i fp = Scanned-cases (scan-Scanned mask src k i fp)
