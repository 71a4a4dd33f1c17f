-- ===== src/Output/Packets/Delivery.antt =====
-- Every connection of a sender is handed every packet.
use mathlib.Core.Path.{subst}
use qproto.Common.{
  ◌≡◌, refl, List, [], ◌∷◌, Option, some, if◌then◌else◌, ◌>>=◌, some->>=, eq_of_some,
}
use qproto.Common.Int.{ℤ, pos, is_neg}
use qproto.Buffer.{AvtBuffer, Heap, buffer_quick_unref}
use qproto.Fifo.{AvtPktd}
use qproto.Output.Packets.{send_each, send_pkt}

-- The last of the results that is an error.
abbrev pub last_error : ℤ → List ℤ → ℤ
last_error ret [] = ret
last_error ret (code ∷ codes) = last_error (if is_neg code then code else ret) codes

module _ {Conn : Type 0} (send : Conn → AvtPktd → Heap → Option (ℤ × Conn × Heap))
    (p : AvtPktd) where
  -- The connections are called with the packet in order, each once, with these results.
  abbrev pub Called : List Conn → Heap → List ℤ → List Conn → Heap → Type 0
  Called [] h [] [] h' = h ≡ h'
  Called (c ∷ conns) h (code ∷ codes) (c' ∷ conns') h' =
      (mid : Heap) × (send c p h ≡ some (code, c', mid)) × Called conns mid codes conns' h'
  Called _ h _ _ h' = ⊥

  abbrev Delivered : ℤ → List Conn → Heap → ℤ × List Conn × Heap → Type 0
  Delivered ret conns h r =
      (codes : List ℤ) × Called conns h codes (r.1) (r.2) × (r.0 ≡ last_error ret codes)

  send_each-Delivered :
      (ret : ℤ) (conns : List Conn) (h : Heap) (r : ℤ × List Conn × Heap)
      → send_each send ret conns p h ≡ some r
      → Delivered ret conns h r
  unfolding send_each
  send_each-Delivered ret [] h r e = subst (Delivered ret [] h) (eq_of_some e) ([], refl, refl)
  send_each-Delivered ret (c ∷ conns) h r e =
      let tail = λ (x : ℤ × Conn × Heap).
        send_each send (if is_neg (x.0) then x.0 else ret) conns p (x.2) >>= λ y.
        some (y.0, x.1 ∷ y.1, y.2) in
      let (x, call, e1) = some->>= (send c p h) tail e in
      let ret1 = if is_neg (x.0) then x.0 else ret in
      let (y, rest, e2) =
        some->>= (send_each send ret1 conns p (x.2)) (λ y. some (y.0, x.1 ∷ y.1, y.2)) e1 in
      let (codes, called, last) = send_each-Delivered ret1 conns (x.2) y rest in
      subst (Delivered ret (c ∷ conns) h) (eq_of_some e2) (x.0 ∷ codes, (x.2, call, called), last)

  -- A packet that is sent without a fault: each connection is called with it, once and in order, also
  -- after one that fails; the result is that of the last that failed, or 0; and then the sender's
  -- reference to the payload is given up.
  pub send_pkt-Called :
      (conns : List Conn) (h : Heap) {ret : ℤ} {conns' : List Conn} {h' : Heap}
      → send_pkt send conns p h ≡ some (ret, conns', h')
      → (codes : List ℤ) × (mid : Heap) × (pl : AvtBuffer) × Called conns h codes conns' mid
        × (ret ≡ last_error (pos 0) codes)
        × (buffer_quick_unref p.pl mid ≡ some (pl, h'))
  unfolding send_pkt
  send_pkt-Called conns h {ret} {conns'} {h'} e =
      let finish = λ (x : ℤ × List Conn × Heap).
        buffer_quick_unref p.pl (x.2) >>= λ (y : AvtBuffer × Heap). some (x.0, x.1, y.1) in
      let (x, sent, e1) = some->>= (send_each send (pos 0) conns p h) finish e in
      let (y, dropped, e2) =
        some->>= (buffer_quick_unref p.pl (x.2)) (λ (y : AvtBuffer × Heap). some (x.0, x.1, y.1))
          e1 in
      let (codes, called, last) = send_each-Delivered (pos 0) conns h x sent in
      subst
        (λ (r : ℤ × List Conn × Heap).
          (cs : List ℤ) × (mid : Heap) × (pl : AvtBuffer) × Called conns h cs (r.1) mid
          × (r.0 ≡ last_error (pos 0) cs)
          × (buffer_quick_unref p.pl mid ≡ some (pl, r.2)))
        (eq_of_some e2) (codes, x.2, y.0, called, last, dropped)
