-- ===== src/Transfer/Descriptor/Stored.antt =====
-- The item pointers of a packet in the live heap: live_heap::add_pointers of
-- src/recv_live_heap.cpp.
use spead.Prelude.{
  ℕ, ◌^◌, ◌≤◌, ◌<◌, ◌≡◌, ◌≢◌, refl, sym, ap, subst, ◌∙◌, Bool, true, false, ◌&&◌, not, List, [],
  ◌∷◌, ◌++◌, All, map, length, arith, append_assoc, append-nil,
}
use spead.Bytes.{load_be, store_be, load_be-store_be}
use spead.Pointer.{PointerDecoder, get_id, get_address, is_immediate}
use spead.Recv.PointerStore.{contains}
use spead.Recv.PointerStore.Order.{store_all, append_new}
use spead.Recv.LiveHeap.{LiveHeap, add_pointer, add_pointers}
use spead.Send.Descriptor.{words}

-- A pointer of 64 bits that the heap stores: no control item, nor one of the four of every packet,
-- and to a place up to `n`.
pub record Admitted (d : PointerDecoder) (n w : ℕ) : Type 0 where
  pub word : w < 2 ^ 64
  pub own : 6 < get_id d w
  pub placed : is_immediate w ≡ false → get_address d w ≤ n

-- The heap is the same but for its pointers.
pub record Stores (h : LiveHeap) (ws : List ℕ) (h' : LiveHeap) : Type 0 where
  pub cnt : h'.cnt ≡ h.cnt
  pub bug_compat : h'.bug_compat ≡ h.bug_compat
  pub decoder : h'.decoder ≡ h.decoder
  pub heap_length : h'.heap_length ≡ h.heap_length
  pub received_length : h'.received_length ≡ h.received_length
  pub min_length : h'.min_length ≡ h.min_length
  pub payload : h'.payload ≡ h.payload
  pub pointers : h'.pointers ≡ store_all h.pointers ws

add_pointer-Stores :
    (h : LiveHeap) (w : ℕ) → Admitted h.decoder h.min_length w → Stores h (w ∷ []) (add_pointer h w)
unfolding add_pointer store_all
add_pointer-Stores h w a = record {
  cnt = refl;
  bug_compat = refl;
  decoder = refl;
  heap_length = refl;
  received_length = refl;
  min_length = ground (arith, a.placed);
  payload = refl;
  pointers = ground (arith, a.own);
}

Stores-then :
    (h h' h'' : LiveHeap) (w : ℕ) (ws : List ℕ)
    → Stores h (w ∷ []) h'
    → Stores h' ws h''
    → Stores h (w ∷ ws) h''
unfolding store_all
Stores-then h h' h'' w ws s t = record {
  cnt = t.cnt ∙ s.cnt;
  bug_compat = t.bug_compat ∙ s.bug_compat;
  decoder = t.decoder ∙ s.decoder;
  heap_length = t.heap_length ∙ s.heap_length;
  received_length = t.received_length ∙ s.received_length;
  min_length = t.min_length ∙ s.min_length;
  payload = t.payload ∙ s.payload;
  pointers = t.pointers ∙ ap (λ p. store_all p ws) s.pointers;
}

pub All-Admitted :
    (d d' : PointerDecoder) (n n' : ℕ) (ws : List ℕ)
    → d' ≡ d
    → n' ≡ n
    → All (Admitted d n) ws
    → All (Admitted d' n') ws
All-Admitted d d' n n' ws e e' all = rw (e, e') all

no_pointers : (h : LiveHeap) → Stores h [] h
unfolding store_all
no_pointers h = record {
  cnt = refl;
  bug_compat = refl;
  decoder = refl;
  heap_length = refl;
  received_length = refl;
  min_length = refl;
  payload = refl;
  pointers = refl;
}

pub add_pointers-Stores :
    (h : LiveHeap) (ws rest : List ℕ)
    → All (Admitted h.decoder h.min_length) ws
    → Stores h ws (add_pointers h (length ws) (words ws ++ rest))
unfolding add_pointers
add_pointers-Stores h [] rest all = no_pointers h
add_pointers-Stores h (w ∷ ws) rest all =
    let first = add_pointer-Stores h w all.0 in
    let next_heap = add_pointer h w in
    let read : load_be (store_be w ++ (words ws ++ rest)) ≡ w =
      load_be-store_be w (words ws ++ rest) all.0.word in
    let others = add_pointers-Stores next_heap ws rest (
      All-Admitted h.decoder next_heap.decoder h.min_length next_heap.min_length ws first.decoder
        first.min_length all.1) in
    subst (λ p. Stores h (w ∷ ws) (add_pointers (add_pointer h p) (length ws) (words ws ++ rest)))
      (sym read)
      (Stores-then h next_heap (add_pointers next_heap (length ws) (words ws ++ rest)) w ws first
        others)

-- Whether the IDs are all different from each other and from those in front.
abbrev pub distinct : List ℕ → List ℕ → Bool
distinct seen [] = true
distinct seen (i ∷ ids) = not (contains i seen) && distinct (seen ++ i ∷ []) ids

module _ (d : PointerDecoder) where
  contains-id :
      (p : ℕ) (seen : List ℕ)
      → contains (get_id d p) (map (get_id d) seen) ≡ false
      → contains p seen ≡ false
  unfolding contains
  contains-id p [] e = refl
  contains-id p (q ∷ seen) e =
      let differ : p ≢ q = λ same. absurd (ground (arith, ap (get_id d) same)) in
      ground (arith, contains-id p seen (ground arith))

  map-snoc :
      (seen : List ℕ) (p : ℕ)
      → map (get_id d) (seen ++ p ∷ []) ≡ map (get_id d) seen ++ get_id d p ∷ []
  map-snoc [] p = refl
  map-snoc (q ∷ seen) p = ap (◌∷◌ (get_id d q)) (map-snoc seen p)

  -- Pointers with different IDs are all stored.
  pub append_new-distinct :
      (seen ws : List ℕ)
      → distinct (map (get_id d) seen) (map (get_id d) ws) ≡ true
      → append_new seen ws ≡ seen ++ ws
  unfolding append_new
  append_new-distinct seen [] e = sym (append-nil seen)
  append_new-distinct seen (w ∷ ws) e =
      let new : contains w seen ≡ false = contains-id w seen (ground arith) in
      let rest : distinct (map (get_id d) seen ++ get_id d w ∷ []) (map (get_id d) ws) ≡ true =
        ground arith in
      rw new (
        append_new-distinct (seen ++ w ∷ []) ws
          (ap (λ ids. distinct ids (map (get_id d) ws)) (map-snoc seen w) ∙ rest)
        ∙ append_assoc seen (w ∷ []) ws)
