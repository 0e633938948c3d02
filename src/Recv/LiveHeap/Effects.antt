-- ===== src/Recv/LiveHeap/Effects.antt =====
-- What the steps of live_heap::add_packet change, and what they leave alone.
use spead.Prelude.{
  ℕ, zero, suc, ◌+◌, ◌≤◌, ◌<◌, ◌≡◌, refl, sym, subst, ◌∙◌, false, List, Option, none, some, arith,
  length, max, drop,
}
use mathlib.Core.Path.{subst₂}
use spead.Bytes.{load_be}
use spead.Pointer.{item_pointer_size}
use spead.Recv.Packet.{PacketHeader}
use spead.Recv.Packet.Bounds.{AtMost, IsDecoded}
use spead.Recv.PointerStore.Order
use spead.Recv.PointerStore.Order.{store_lem, empty_store-IsValid}
use spead.Recv.LiveHeap.{
  LiveHeap, PacketMemcpy, add_pointer, add_pointers, note_length, copy_payload, accept,
  is_inconsistent,
}

-- What decode_packet has checked of a packet, as far as a live heap relies on it.
pub record IsSound (packet : PacketHeader) : Type 0 where
  pub in_heap : AtMost (packet.payload_offset + packet.payload_length) packet.heap_length
  pub readable : packet.payload_length ≤ length packet.payload

pub IsDecoded-IsSound :
    (bytes : List ℕ) (max_size size : ℕ) (out : PacketHeader)
    → IsDecoded bytes max_size size out
    → IsSound out
IsDecoded-IsSound bytes max_size size out d = record {
  in_heap = d.in_heap;
  readable = d.payload_readable;
}

abbrev pub UpTo : ℕ → Option ℕ → Type 0
UpTo n none = Unit {0}
UpTo n (some length) = length ≤ n

-- A known heap length is at most min_length, and has its memory.
pub record HasLength (h : LiveHeap) : Type 0 where
  pub length_le : UpTo h.min_length h.heap_length
  pub reserved : UpTo h.payload_reserved h.heap_length

-- What note_length leaves alone, and what it makes room for.
pub record Noted (h : LiveHeap) (packet : PacketHeader) (h' : LiveHeap) : Type 0 where
  pub known : HasLength h'
  pub longer : h.min_length ≤ h'.min_length
  pub larger : h.payload_reserved ≤ h'.payload_reserved
  pub length_room : packet.payload_offset + packet.payload_length ≤ h'.min_length
  pub memory_room : packet.payload_offset + packet.payload_length ≤ h'.payload_reserved
  pub same_ranges : h'.payload_ranges ≡ h.payload_ranges
  pub same_received : h'.received_length ≡ h.received_length
  pub same_pointers : h'.pointers ≡ h.pointers
  pub kept_memory : (x : ℕ) → x < h.payload_reserved → h'.payload x ≡ h.payload x

pub note_length-Noted :
    (h : LiveHeap) (packet : PacketHeader)
    → HasLength h
    → IsSound packet
    → is_inconsistent h packet ≡ false
    → Noted h packet (note_length h packet)
unfolding note_length is_inconsistent
note_length-Noted h packet v p c = record {
  known = record {
    length_le = ground (arith, v, p.in_heap);
    reserved = ground (arith, v, p.in_heap);
  };
  longer = ground arith;
  larger = ground arith;
  length_room = ground (arith, v, p.in_heap);
  memory_room = ground (arith, v, p.in_heap);
  same_ranges = ground arith;
  same_received = ground arith;
  same_pointers = ground arith;
  kept_memory = λ x m. ground arith;
}

-- What add_pointers leaves alone.
pub record Keeps (h h' : LiveHeap) : Type 0 where
  pub same_length : h'.heap_length ≡ h.heap_length
  pub longer : h.min_length ≤ h'.min_length
  pub same_received : h'.received_length ≡ h.received_length
  pub same_ranges : h'.payload_ranges ≡ h.payload_ranges
  pub same_memory : h'.payload ≡ h.payload
  pub same_reserved : h'.payload_reserved ≡ h.payload_reserved
  pub valid_pointers : Order.IsValid h.pointers → Order.IsValid h'.pointers

add_pointer-Keeps : (h : LiveHeap) (pointer : ℕ) → Keeps h (add_pointer h pointer)
unfolding add_pointer
add_pointer-Keeps h pointer = record {
  same_length = refl;
  longer = ground arith;
  same_received = refl;
  same_ranges = refl;
  same_memory = refl;
  same_reserved = refl;
  valid_pointers = λ v. ground (arith, v, store_lem h.pointers v pointer);
}

Keeps-trans : {h h' h'' : LiveHeap} → Keeps h h' → Keeps h' h'' → Keeps h h''
Keeps-trans k l = record {
  same_length = l.same_length ∙ k.same_length;
  longer = omega arith;
  same_received = l.same_received ∙ k.same_received;
  same_ranges = l.same_ranges ∙ k.same_ranges;
  same_memory = l.same_memory ∙ k.same_memory;
  same_reserved = l.same_reserved ∙ k.same_reserved;
  valid_pointers = λ v. l.valid_pointers (k.valid_pointers v);
}

pub add_pointers-Keeps :
    (h : LiveHeap) (n : ℕ) (pointers : List ℕ) → Keeps h (add_pointers h n pointers)
unfolding add_pointers
add_pointers-Keeps h zero pointers = record {
  same_length = refl;
  longer = omega arith;
  same_received = refl;
  same_ranges = refl;
  same_memory = refl;
  same_reserved = refl;
  valid_pointers = λ v. v;
}
add_pointers-Keeps h (suc n) pointers =
    Keeps-trans (add_pointer-Keeps h (load_be pointers))
      (add_pointers-Keeps (add_pointer h (load_be pointers)) n (drop item_pointer_size pointers))

-- copy_payload adds the packet's length and touches nothing else but the memory.
pub record Copied (h : LiveHeap) (packet : PacketHeader) (h' : LiveHeap) : Type 0 where
  pub same_length : h'.heap_length ≡ h.heap_length
  pub same_min : h'.min_length ≡ h.min_length
  pub added : h'.received_length ≡ h.received_length + packet.payload_length
  pub same_ranges : h'.payload_ranges ≡ h.payload_ranges
  pub same_reserved : h'.payload_reserved ≡ h.payload_reserved
  pub same_pointers : h'.pointers ≡ h.pointers

copy_payload-Copied :
    (h : LiveHeap) (packet : PacketHeader) (m : PacketMemcpy)
    → Copied h packet (copy_payload h packet m)
unfolding copy_payload
copy_payload-Copied h packet m = record {
  same_length = ground arith;
  same_min = ground arith;
  added = ground arith;
  same_ranges = ground arith;
  same_reserved = ground arith;
  same_pointers = ground arith;
}

abbrev pub last_of : PacketHeader → ℕ
last_of packet = packet.payload_offset + packet.payload_length

UpTo-le : (n k : ℕ) (o : Option ℕ) → n ≤ k → UpTo n o → UpTo k o
UpTo-le n k none h u = tt
UpTo-le n k (some l) h u = omega arith

-- What accepting a packet does to the lengths, and what it leaves alone.
pub record Accepted (h : LiveHeap) (packet : PacketHeader) (h' : LiveHeap) : Type 0 where
  pub known : HasLength h'
  pub longer : max h.min_length (last_of packet) ≤ h'.min_length
  pub larger : max h.payload_reserved (last_of packet) ≤ h'.payload_reserved
  pub added : h'.received_length ≡ h.received_length + packet.payload_length
  pub same_ranges : h'.payload_ranges ≡ h.payload_ranges
  pub valid_pointers : Order.IsValid h.pointers → Order.IsValid h'.pointers

pub accept-Accepted :
    (h : LiveHeap) (packet : PacketHeader) (m : PacketMemcpy)
    → HasLength h
    → IsSound packet
    → is_inconsistent h packet ≡ false
    → Accepted h packet (accept h packet m)
unfolding accept
accept-Accepted h packet m v p c =
    let a = note_length h packet in
    let b = add_pointers a packet.n_items packet.pointers in
    let n = note_length-Noted h packet v p c in
    let k = add_pointers-Keeps a packet.n_items packet.pointers in
    let d = copy_payload-Copied b packet m in
    record {
      known = record {
        length_le =
            subst₂ UpTo (sym d.same_min) (sym (d.same_length ∙ k.same_length))
              (UpTo-le a.min_length b.min_length a.heap_length k.longer n.known.length_le);
        reserved =
            subst₂ UpTo (sym (d.same_reserved ∙ k.same_reserved))
              (sym (d.same_length ∙ k.same_length)) n.known.reserved;
      };
      longer = omega (arith, d.same_min, k.longer, n.longer, n.length_room);
      larger = omega (arith, d.same_reserved, k.same_reserved, n.larger, n.memory_room);
      added = omega (arith, d.added, k.same_received, n.same_received);
      same_ranges = d.same_ranges ∙ k.same_ranges ∙ n.same_ranges;
      valid_pointers = λ w.
          subst Order.IsValid (sym d.same_pointers)
            (k.valid_pointers (subst Order.IsValid (sym n.same_pointers) w));
    }
