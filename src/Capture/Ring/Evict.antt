-- ===== src/Capture/Ring/Evict.antt =====
-- internal/capture/store.go: `evictOldest` drops the oldest entry of a full ring.
use goper.Base.{
  ℕ, suc, ◌+◌, ◌-◌, ◌%◌, ◌<◌, List, ◌∷◌, none, some, ◌≡◌, ◌≢◌, inl, inr, sym, ap, ◌∙◌, arith, set,
  get_elem?, length-set, get_or-set_self, get_or-set_ne, get_elem?-none, mod_shift, mod_full,
  mod_below, mod_small, mod_cases, Option-cases,
}
use native.Mathlib.Decide.{dec_lt}
use goper.Base.Text.{Text, text_eq_iff}
use goper.Capture.Entry.{CapturedEntry}
use goper.Capture.Ring.{RingBuffer, slot, forget, evict_oldest}
use goper.Capture.Ring.Spec.{Holds, position, at_slot, position-lt, position-none}

module _ (rb : RingBuffer) (x : CapturedEntry) (q : List CapturedEntry) (h : Holds rb (x ∷ q)) where
  -- The oldest entry stands at the head.
  pub slot-head : slot rb.buffer rb.head ≡ some x
  slot-head =
      let e : (rb.head + 0) % rb.capacity ≡ rb.head =
        mod_small (rb.head + 0) rb.capacity (omega (arith, h.head_in)) ∙ omega arith in
      ap (λ k. slot rb.buffer k) (sym e) ∙ h.slots 0 (omega (arith, h.head_in))

  evict-slots :
      (i : ℕ)
      → i < rb.capacity
      → slot (set rb.buffer rb.head none) (((rb.head + 1) % rb.capacity + i) % rb.capacity)
        ≡ get_elem? q i
  evict-slots i p =
      rw (mod_shift rb.head rb.capacity i h.head_in p) (elim (dec_lt (suc i) rb.capacity) [
        | yes inside ↦
            get_or-set_ne rb.buffer rb.head _ none none (moved inside) ∙ h.slots (suc i) inside
        | no last ↦
            ap (λ k. slot (set rb.buffer rb.head none) k) (around last)
            ∙ get_or-set_self rb.buffer rb.head none none (omega (arith, h.head_in, h.sized))
            ∙ sym (get_elem?-none q i (omega (arith, h.counted, h.fits)))
      ])
    where
      moved : suc i < rb.capacity → rb.head ≢ (rb.head + suc i) % rb.capacity
      moved inside = ground (arith, h.head_in, mod_cases (rb.head + suc i) rb.capacity)

      around : ¬ (suc i < rb.capacity) → (rb.head + suc i) % rb.capacity ≡ rb.head
      around last =
          let e : suc i ≡ rb.capacity = omega arith in
          ap (λ k. (rb.head + k) % rb.capacity) e ∙ mod_full rb.head rb.capacity h.head_in

  evict-indexed :
      (id : Text)
      → forget (slot rb.buffer rb.head) rb.id_index id
        ≡ at_slot ((rb.head + 1) % rb.capacity) rb.capacity (position id q)
  unfolding position
  evict-indexed id = rw slot-head (elim (Option-cases (position id q)) [
    | inl e ↦ ground (arith, e, h.indexed id, text_eq_iff x.id id)
    | inr (i, e) ↦ ground (
      arith,
      e,
      h.indexed id,
      text_eq_iff x.id id,
      position-none x.id q h.distinct.0,
      mod_shift rb.head rb.capacity i h.head_in,
      position-lt id q i,
      h.counted,
      h.fits,
    )
  ])

  pub evict_oldest-Holds : Holds (evict_oldest rb) q
  unfolding evict_oldest
  evict_oldest-Holds = record {
    sized = length-set rb.buffer rb.head none ∙ h.sized;
    head_in = mod_below (rb.head + 1) rb.capacity (omega (arith, h.head_in));
    tail_at =
        h.tail_at
        ∙ (let e : rb.count ≡ suc (rb.count - 1) = omega (arith, h.counted) in
            ap (λ k. (rb.head + k) % rb.capacity) e)
        ∙ sym (
            mod_shift rb.head rb.capacity (rb.count - 1) h.head_in
              (omega (arith, h.counted, h.fits)));
    counted = omega (arith, h.counted);
    fits = omega (arith, h.fits);
    slots = evict-slots;
    indexed = evict-indexed;
    distinct = h.distinct.1;
  }
