-- ===== src/Output/Compression.antt =====
-- Which payloads are compressed, and who owns the memory that a compressor fills.
use qproto.Common.{
  ℕ, suc, ◌+◌, ◌-◌, ◌≡◌, refl, ◌≢◌, ◌∙◌, arith, Bool, true, false, Option, none, some, ok, ltb,
  ◌==◌,
}
use qproto.Packet.{Body, DataCompression, no_compression}
use qproto.Buffer.{
  AvtBuffer, Heap, null_buffer, update, buffer_quick_create, buffer_quick_ref, buffer_quick_unref,
}
use qproto.Buffer.Alloc.{buffer_create, buffer_unref}
use qproto.Fifo.{AvtPktd}
use qproto.Output.{
  compress_none, CodecId, other_codec, compress_stream, compress_method, Compressor,
  compressed_length, hand_over, compress_payload,
}

-- The codecs that the code names.
abbrev pub IsNamed : CodecId → Type 0
IsNamed other_codec = ⊥
IsNamed _ = Unit

-- A packet for which there is a case.
abbrev pub IsCompressible : Body → CodecId → Type 0
IsCompressible (Body.stream_data d) codec = IsNamed codec
IsCompressible (Body.font_data d) codec = Unit
IsCompressible (Body.stream_config d) codec = Unit
IsCompressible (Body.user_data d) codec = Unit
IsCompressible (Body.lut_icc d) codec = Unit
IsCompressible (Body.metadata d) codec = Unit
IsCompressible _ codec = ⊥

stream-ne : (codec : CodecId) → IsNamed codec → compress_stream codec compress_none ≢ no_compression
unfolding compress_stream
stream-ne other_codec h = absurd h
stream-ne _ h = λ e. cc

-- Every flag is set in AVT_SENDER_COMPRESS_NONE, which asks for no compression: with it every packet for
-- which the code has a case is compressed.
pub compress_method-ne-no_compression :
    (body : Body) (codec : CodecId) (woff2 : Bool)
    → IsCompressible body codec
    → compress_method body codec woff2 compress_none ≢ no_compression
unfolding compress_method
compress_method-ne-no_compression (Body.stream_data d) codec woff2 h = stream-ne codec h
compress_method-ne-no_compression (Body.font_data d) codec true h = λ e. cc
compress_method-ne-no_compression (Body.font_data d) codec false h = λ e. cc
compress_method-ne-no_compression (Body.stream_config d) codec woff2 h = λ e. cc
compress_method-ne-no_compression (Body.user_data d) codec woff2 h = λ e. cc
compress_method-ne-no_compression (Body.lut_icc d) codec woff2 h = λ e. cc
compress_method-ne-no_compression (Body.metadata d) codec woff2 h = λ e. cc
compress_method-ne-no_compression _ codec woff2 h = absurd h

-- Counters after a new buffer was made, referred to and given up once.
ends_at_one :
    (f : ℕ → Option ℕ) (n r : ℕ)
    → r ≢ n
    → update (update (update f n (some 1)) n (some 2)) n (some 1) r ≡ f r
ends_at_one f n r h = ground arith

module _ (z : Compressor) (method : DataCompression) (p : AvtPktd) (src_len : ℕ) (h : Heap)
    (dst k : ℕ) (fresh : p.pl.refcnt ≡ none) (memory : z.memory method ≡ some dst)
    (shorter : compressed_length z method src_len ≡ some (suc k)) (buffer : z.buffer_ok ≡ true)
    (count : z.count_ok ≡ true) where
  made : AvtBuffer
  made = record null_buffer {
    refcnt = some h.next;
    base_data = dst;
    end_data = dst + suc k;
    data_ = dst;
    len = suc k;
    default_free = true;
  }

  one : Heap
  one = record h { counter = update h.counter h.next (some 1); next = h.next + 1 }

  -- The view of all of the memory that the packet is given.
  whole : AvtBuffer
  unfolding made
  whole = record made { data_ = dst + 0; len = dst + suc k - (dst + 0) }

  two : Heap
  unfolding one
  two = record one { counter = update one.counter h.next (some 2) }

  last : Heap
  unfolding two
  last = record two { counter = update two.counter h.next (some 1) }

  self : (h.next == h.next) ≡ true
  self = ground arith

  compress_payload-made : compress_payload z method p src_len h ≡ hand_over p (made, one)
  unfolding compress_payload buffer_create buffer_quick_create made one
  compress_payload-made = ground arith

  ref-made : buffer_quick_ref p.pl made 0 0 one ≡ some (whole, two)
  unfolding buffer_quick_ref buffer_quick_unref made one whole two
  ref-made =
      let inside : ltb (dst + 0) (dst + suc k) ≡ true = ground arith in
      rw fresh (rw inside (rw self refl))

  unref-made : buffer_unref (some made) two ≡ some (none, last)
  unfolding buffer_unref buffer_quick_unref made one two last
  unref-made = ground arith

  -- A payload for which the compressor gives what the code takes for a length, and for which there is
  -- memory: the packet is the only one that refers to the new memory, which is as long as that; all other
  -- counters are as before, and nothing is freed.
  pub compress_payload-owns :
      (pl : AvtBuffer) × (h' : Heap) × (compress_payload z method p src_len h
        ≡ some (ok (record p { pl = pl }, h')))
      × (pl.data_ ≡ dst)
      × (pl.len ≡ suc k)
      × (pl.refcnt ≡ some h.next)
      × (h'.counter h.next ≡ some 1)
      × ((r : ℕ) → r ≢ h.next → h'.counter r ≡ h.counter r)
      × (h'.released ≡ h.released)
  unfolding hand_over one two last whole made
  compress_payload-owns = (
    whole,
    last,
    compress_payload-made ∙ ground (arith, ref-made, unref-made),
    omega arith,
    omega arith,
    refl,
    rw self refl,
    (λ r ne. ends_at_one h.counter h.next r ne),
    refl,
  )
