-- ===== src/Recv/LiveHeap/Contents.antt =====
-- Which bytes the payload of a live heap holds after each packet.
use spead.Prelude.{ℕ, ◌-◌, ◌<◌, ◌≡◌, ap, ◌∙◌, Bool, true, false, Option, arith, get_elem?}
use spead.Recv.Packet.{PacketHeader}
use spead.Recv.Ranges.Coverage.{within}
use spead.Recv.LiveHeap.{
  LiveHeap, adapt_memcpy, add_pointers, note_length, copy_payload, accept, is_inconsistent,
}
use spead.Recv.LiveHeap.Effects.{IsSound, HasLength, last_of, note_length-Noted, add_pointers-Keeps}

-- Byte x belongs to the packet's payload.
abbrev pub is_in : PacketHeader → ℕ → Bool
is_in packet x = within packet.payload_offset (last_of packet) x

abbrev pub byte_at : PacketHeader → ℕ → Option ℕ
byte_at packet x = get_elem? packet.payload (x - packet.payload_offset)

pub copy_payload-new :
    (h : LiveHeap) (packet : PacketHeader) (x : ℕ)
    → is_in packet x ≡ true
    → (copy_payload h packet adapt_memcpy).payload x ≡ byte_at packet x
unfolding copy_payload adapt_memcpy
copy_payload-new h packet x e = ground arith

copy_payload-old :
    (h : LiveHeap) (packet : PacketHeader) (x : ℕ)
    → is_in packet x ≡ false
    → (copy_payload h packet adapt_memcpy).payload x ≡ h.payload x
unfolding copy_payload adapt_memcpy
copy_payload-old h packet x e = ground arith

module _ (h : LiveHeap) (packet : PacketHeader) where
  -- A byte of the packet is in place once the packet is accepted.
  pub accept-new :
      (x : ℕ) → is_in packet x ≡ true → (accept h packet adapt_memcpy).payload x ≡ byte_at packet x
  unfolding accept
  accept-new x e = copy_payload-new _ packet x e

  -- A byte outside of it stays, if there was memory for it.
  pub accept-old :
      (x : ℕ)
      → HasLength h
      → IsSound packet
      → is_inconsistent h packet ≡ false
      → is_in packet x ≡ false
      → x < h.payload_reserved
      → (accept h packet adapt_memcpy).payload x ≡ h.payload x
  unfolding accept
  accept-old x v p c e m =
      let a = note_length h packet in
      let b = add_pointers a packet.n_items packet.pointers in
      copy_payload-old b packet x e
      ∙ ap (λ f. f x) (add_pointers-Keeps a packet.n_items packet.pointers).same_memory
      ∙ (note_length-Noted h packet v p c).kept_memory x m
