-- ===== src/Scheduler/Push/Tiling.antt =====
-- The segments that `scheduler_push_internal` sends tile the payload.
use mathlib.Core.Path.{subst}
use qproto.Common.{
  ℕ, ◌+◌, ◌-◌, ◌*◌, ◌^◌, ◌≤◌, ◌<◌, ◌≡◌, ◌≢◌, refl, ◌∙◌, sym, ap, arith, max, false, List, [], ◌∷◌,
  ◌++◌, some,
}
use qproto.Common.Int.{negsuc}
use qproto.Buffer.{AvtBuffer}
use qproto.Packet.{Body, packet_series}
use qproto.Fifo.{AvtPktd, AvtPacketFifo}
use qproto.Fifo.Queue.{contents, IsValid}
use qproto.Fifo.Pushing.{LastIs, LastIs-contents}

module _ (hdr_size : Body → ℕ) (lim tot : ℕ) (pl : AvtBuffer) where
  -- A packet with the bytes of the payload from `from` on, small enough; all but the first packet
  -- say so in their header.
  pub record IsTile (from : ℕ) (x : AvtPktd) : Type 0 where
    pub start : x.pl.data_ ≡ pl.data_ + from
    pub some_bytes : 0 < x.pl.len
    pub fits : hdr_size x.pkt.body + x.pl.len ≤ lim
    pub header :
        from ≢ 0
        → packet_series x.pkt ≡ (
          negsuc 0,
          some (record { is_parity = some false; off = from; cur = x.pl.len; tot = tot }),
        )

  -- Packets that carry the bytes from `from` to `to`, in order, each byte once.
  abbrev pub Tiles : ℕ → List AvtPktd → ℕ → Type 0
  Tiles from [] to = from ≡ to
  Tiles from (x ∷ xs) to = IsTile from x × Tiles (from + x.pl.len) xs to

  Tiles-snoc :
      (from : ℕ) (xs : List AvtPktd) (mid to : ℕ) (x : AvtPktd)
      → Tiles from xs mid
      → IsTile mid x
      → mid + x.pl.len ≡ to
      → Tiles from (xs ++ (x ∷ [])) to
  Tiles-snoc from [] mid to x e t k = (subst (λ n. IsTile n x) (sym e) t, omega arith)
  Tiles-snoc from (y ∷ ys) mid to x (s, h) t k = (s, Tiles-snoc (from + y.pl.len) ys mid to x h t k)

  -- The bucket holds `old` and then the bytes of the payload from `from` to `off`; `left` are left.
  pub record Sent (from : ℕ) (old : List AvtPktd) (dst : AvtPacketFifo) (off left : ℕ)
      : Type 0 where
    pub valid : IsValid dst
    pub small : dst.alloc < 2 ^ 31
    pub budget : 2 * (dst.nb + left) + 8 < 2 ^ 31
    pub whole : off + left ≡ tot
    pub new : List AvtPktd
    pub sent : contents dst ≡ old ++ new
    pub tiles : Tiles from new off

  append_assoc : (xs ys zs : List AvtPktd) → (xs ++ ys) ++ zs ≡ xs ++ (ys ++ zs)
  append_assoc [] ys zs = refl
  append_assoc (x ∷ xs) ys zs = ap (λ l. x ∷ l) (append_assoc xs ys zs)

  -- One more packet.
  pub Sent-next :
      (from : ℕ) (old : List AvtPktd) (dst dst' : AvtPacketFifo) (off left seg : ℕ) (x : AvtPktd)
      → Sent from old dst off left
      → LastIs dst' dst.nb (contents dst) x
      → dst'.alloc ≤ max dst.alloc (2 * dst.nb + 2)
      → IsTile off x
      → x.pl.len ≡ seg
      → seg ≤ left
      → Sent from old dst' (off + seg) (left - seg)
  Sent-next from old dst dst' off left seg x h last growth tile is fits = record {
    valid = last.valid;
    small = omega (arith, h.small, h.budget);
    budget = omega (arith, h.budget, last.count, tile.some_bytes);
    whole = omega (arith, h.whole);
    new = h.new ++ (x ∷ []);
    sent =
        LastIs-contents dst' dst.nb (contents dst) x last
        ∙ ap (λ l. l ++ (x ∷ [])) h.sent
        ∙ append_assoc old h.new (x ∷ []);
    tiles = Tiles-snoc from h.new off (off + seg) x h.tiles tile (ap (λ n. off + n) is);
  }
