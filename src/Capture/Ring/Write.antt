-- ===== src/Capture/Ring/Write.antt =====
-- internal/capture/store.go: `Push` writes the new entry at the tail.
use goper.Base.{
  ℕ, ◌+◌, ◌%◌, ◌<◌, List, [], ◌∷◌, ◌++◌, none, some, ◌≡◌, sym, ap, ◌∙◌, arith, length, set,
  get_elem?, length-set, length-append, get_or-set_self, get_or-set_ne, get_elem?-append_end,
  get_elem?-append_ne, mod_injective, mod_below,
}
use native.Mathlib.Decide.{ℕ_discrete}
use native.Mathlib.Nat.{mod-add-mod}
use goper.Base.Text.{Text}
use goper.Base.Maps.{insert}
use goper.Capture.Entry.{CapturedEntry}
use goper.Capture.Ring.{RingBuffer, slot, write_tail}
use goper.Capture.Ring.Spec.{Holds, find, position, at_slot, position-append, append-HasDistinctIds}

module _ (rb : RingBuffer) (e : CapturedEntry) (q : List CapturedEntry) (h : Holds rb q)
    (room : rb.count < rb.capacity) (fresh : find e.id q ≡ none) where
  write-slots :
      (i : ℕ)
      → i < rb.capacity
      → slot (set rb.buffer rb.tail (some e)) ((rb.head + i) % rb.capacity)
        ≡ get_elem? (q ++ e ∷ []) i
  write-slots i p = elim (ℕ_discrete i rb.count) [
    | yes here ↦
        ap (λ k. slot (set rb.buffer rb.tail (some e)) k) (at_tail here)
        ∙ get_or-set_self rb.buffer rb.tail (some e) none tail_in
        ∙ sym (ap (get_elem? (q ++ e ∷ [])) (here ∙ h.counted) ∙ get_elem?-append_end q e)
    | no other ↦
        get_or-set_ne rb.buffer rb.tail _ (some e) none (λ s.
          other (
            mod_injective rb.head rb.capacity i rb.count h.head_in p room
              (sym (sym h.tail_at ∙ s))))
        ∙ h.slots i p
        ∙ sym (get_elem?-append_ne q e i (λ s. other (s ∙ sym h.counted)))
  ]
    where
      at_tail : i ≡ rb.count → (rb.head + i) % rb.capacity ≡ rb.tail
      at_tail here = ap (λ k. (rb.head + k) % rb.capacity) here ∙ sym h.tail_at

      tail_in : rb.tail < length rb.buffer
      tail_in =
          omega
            (arith, h.tail_at, h.sized, mod_below (rb.head + rb.count) rb.capacity (omega arith))

  write-indexed :
      (id : Text)
      → insert e.id rb.tail rb.id_index id ≡ at_slot rb.head rb.capacity (position id (q ++ e ∷ []))
  write-indexed id =
      rw (position-append e q id fresh) (ground (arith, h.indexed id, h.tail_at, h.counted))

  pub write_tail-Holds : Holds (write_tail rb e) (q ++ e ∷ [])
  unfolding write_tail
  write_tail-Holds = record {
    sized = length-set rb.buffer rb.tail (some e) ∙ h.sized;
    head_in = h.head_in;
    tail_at =
        ap (λ k. (k + 1) % rb.capacity) h.tail_at
        ∙ mod-add-mod (rb.head + rb.count) rb.capacity 1
        ∙ ap (λ k. k % rb.capacity) (omega arith);
    counted = omega (arith, h.counted, length-append q (e ∷ []));
    fits = omega (arith, room);
    slots = write-slots;
    indexed = write-indexed;
    distinct = append-HasDistinctIds q e h.distinct fresh;
  }
