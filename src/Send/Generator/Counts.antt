-- ===== src/Send/Generator/Counts.antt =====
-- How many packets the item pointers and the payload of a packet_generator still take. The
-- constructor chooses payload_size so that each packet that the pointers fill has eight bytes of
-- payload to go with it.
use native.Mathlib.Nat.{suc-mul}
use spead.Prelude.{
  ℕ, zero, suc, ◌+◌, ◌-◌, ◌*◌, ◌≤◌, ◌<◌, ◌≡◌, refl, subst, Bool, true, min, arith, inl, inr,
  Bool-cases, leb, leb→le, leb→lt,
}

-- `most` pointers fit into a packet; `to_point` pointers and `to_send` bytes are left. The pointers
-- fill at most `full` packets, for which there is payload. Padding is no more than they need.
pub record Counts (need_null : Bool) (most to_point to_send : ℕ) : Type 0 where
  pub full : ℕ
  pub enough : to_point ≤ full * most
  pub room : 8 * full < to_send + 8
  pub padding :
      need_null ≡ true → 0 < to_send → (to_send + 7 ≤ 8 * full) × (full * most < to_point + most)

-- What the next packet takes: n_item_pointers and packet_payload_length, with the packet's size
-- that of `most` pointers and eight bytes of payload.
abbrev pub takes_pointers : ℕ → ℕ → ℕ
takes_pointers most to_point = min most to_point

abbrev pub takes_payload : ℕ → ℕ → ℕ → ℕ
takes_payload most to_point to_send =
    min to_send (8 * most + 48 - takes_pointers most to_point * 8 - 40)

-- Padding that is left goes with the last pointers.
last_padding :
    (full most to_point to_send : ℕ)
    → to_point ≤ most
    → full * most < to_point + most
    → to_send + 7 ≤ 8 * full
    → to_send ≤ 1
last_padding zero most to_point to_send h p q = omega arith
last_padding (suc zero) most to_point to_send h p q = omega arith
last_padding (suc (suc k)) most to_point to_send h p q =
    absurd (omega (arith, suc-mul (suc k) most, suc-mul k most))

module _ (need_null : Bool) (most to_point to_send : ℕ) (v : Counts need_null most to_point to_send)
    (some_pointers : 0 < most) (unsent : 0 < to_send) where
  abbrev n : ℕ
  n = takes_pointers most to_point

  abbrev len : ℕ
  len = takes_payload most to_point to_send

  pub takes_payload-pos : 0 < len
  takes_payload-pos = omega arith

  pub takes_payload-padding : need_null ≡ true → len ≤ 8
  takes_payload-padding need = elim (Bool-cases (leb to_point most)) [
    | inl last ↦
        let p = v.padding need unsent in
        let one = last_padding v.full most to_point to_send (leb→le to_point most last) p.1 p.0 in
        omega arith
    | inr more ↦ let lt = leb→lt to_point most more in omega arith
  ]

  another : (k : ℕ) → to_point ≤ suc k * most → most < to_point → 0 < k
  another zero h more = absurd (omega (arith, suc-mul 0 most))
  another (suc k) h more = omega arith

  full-Counts :
      (k : ℕ) → v.full ≡ k → most < to_point → Counts need_null most (to_point - n) (to_send - len)
  full-Counts zero e more =
      let none_left : to_point ≤ 0 * most = subst (λ f. to_point ≤ f * most) e v.enough in
      absurd (omega arith)
  full-Counts (suc k) e more =
      let enough : to_point ≤ suc k * most = subst (λ f. to_point ≤ f * most) e v.enough in
      let room : 8 * suc k < to_send + 8 = subst (λ f. 8 * f < to_send + 8) e v.room in
      let pos = another k enough more in
      record {
        full = k;
        enough = omega (arith, suc-mul k most);
        room = omega arith;
        padding = λ need left.
            let p = v.padding need unsent in
            let few : suc k * most < to_point + most =
              subst (λ f. f * most < to_point + most) e p.1 in
            let covered : to_send + 7 ≤ 8 * suc k = subst (λ f. to_send + 7 ≤ 8 * f) e p.0 in
            (omega arith, omega (arith, suc-mul k most));
      }

  pub takes-Counts : Counts need_null most (to_point - n) (to_send - len)
  takes-Counts = elim (Bool-cases (leb to_point most)) [
    | inl last ↦
        let le = leb→le to_point most last in
        record {
          full = 0;
          enough = omega arith;
          room = omega arith;
          padding = λ need left.
              let p = v.padding need unsent in
              let one = last_padding v.full most to_point to_send le p.1 p.0 in
              absurd (omega arith);
        }
    | inr more ↦ full-Counts v.full refl (leb→lt to_point most more)
  ]
