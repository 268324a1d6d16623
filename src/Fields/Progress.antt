-- ===== src/Fields/Progress.antt =====
-- The readers of tools/abi_artifact_parity.py go forward, up to their limit.
use zynum.Prelude.{
  ℕ, zero, suc, ◌+◌, ◌-◌, ◌<◌, ◌≤◌, ◌≡◌, String, List, ltb, ltb→lt, ◌==◌, ◌&&◌, ok, bind-ok,
  if-cases, inl, inr, ok-second, arith,
}
use Prim.Native.Nat.{bit_and, bit_or}
use zynum.Fields.{byte_at, shift_left, uleb_from, uleb, cstring}
use zynum.Fields.Cstring.{cstring_lem}

-- From a cursor to another, within a limit.
pub record Advances (cursor limit next : ℕ) : Type 0 where
  pub forward : cursor < next
  pub inside : next ≤ limit

pub Advances-trans :
    (a limit b c : ℕ) → Advances a limit b → Advances b limit c → Advances a limit c
Advances-trans a limit b c p q = record {
  forward = omega (arith, p.forward, q.forward);
  inside = q.inside;
}

uleb_from-Advances :
    (bytes : List ℕ) (limit : ℕ) (locator : String)
    (start rounds value shift offset result next : ℕ)
    → uleb_from bytes limit locator start rounds value shift offset ≡ ok (result, next)
    → Advances offset limit next
unfolding uleb_from
uleb_from-Advances bytes limit locator start zero value shift offset result next h = absurd (cc h)
uleb_from-Advances bytes limit locator start (suc rounds) value shift offset result next h =
    elim (if-cases (ltb offset limit) _ _ h) [
      | inr (past, k) ↦ absurd (cc k)
      | inl (inside, k) ↦
          let room = ltb→lt offset limit inside in
          let (byte, _, k) = bind-ok (byte_at bytes offset) _ k in
          elim (if-cases (bit_and byte 128 == 0) _ _ k) [
            | inl (last, k) ↦ elim (if-cases (ltb 1 (suc offset - start) && byte == 0) _ _ k) [
              | inl (padded, k) ↦ absurd (cc k)
              | inr (minimal, k) ↦
                  let at : suc offset ≡ next = ok-second k in
                  record { forward = omega (arith, at); inside = omega (arith, at, room) }
            ]
            | inr (more, k) ↦
                let further =
                  uleb_from-Advances bytes limit locator start rounds
                    (bit_or value (shift_left (bit_and byte 127) shift)) (shift + 7) (suc offset)
                    result next k in
                let up = further.forward in
                record { forward = omega (arith, up); inside = further.inside }
          ]
    ]

pub uleb-Advances :
    (bytes : List ℕ) (offset limit : ℕ) (locator : String) (result next : ℕ)
    → uleb bytes offset limit locator ≡ ok (result, next)
    → Advances offset limit next
unfolding uleb
uleb-Advances bytes offset limit locator result next h =
    uleb_from-Advances bytes limit locator offset 10 0 0 offset result next h

pub cstring-Advances :
    (bytes : List ℕ) (start limit : ℕ) (locator : String) (text : List ℕ) (next : ℕ)
    → cstring bytes start limit locator ≡ ok (text, next)
    → Advances start limit next
cstring-Advances bytes start limit locator text next h =
    let t = (cstring_lem bytes start limit locator text next).0 h in
    record { forward = omega (arith, t.ends); inside = t.inside }
