-- ===== src/Io/Search.antt =====
-- Which implementation is opened, and when the search for one ends.
use qproto.Common.{
  false, ℕ, zero, suc, ◌≡◌, refl, ◌∙◌, ap, sym, arith, List, [], ◌∷◌, Option, none, some, Result,
  ok, err, enomem, einval, eagain, ebusy, enoent, erange, enotsup,
}
use qproto.Address.Types.{AvtAddress}
use qproto.Io.{
  is_invalid, Backend, AvtIoType, map_addr_to_io, avt_io_list, init_rounds, avt_io_init,
}

-- An answer with which the code goes on.
abbrev pub IsSkipped : Result ℕ → Type 0
IsSkipped (ok ctx) = ⊥
IsSkipped (err enomem) = ⊥
IsSkipped (err e) = Unit

init_rounds-skipped :
    (init : ℕ → Backend → Result ℕ) (io : Backend) (list : List Backend)
    → ((i : ℕ) → IsSkipped (init i io))
    → (n i : ℕ) → init_rounds init n i (io ∷ list) ≡ none
unfolding init_rounds
init_rounds-skipped init io list h zero i = refl
init_rounds-skipped init io list h (suc n) i =
    skipped (init i io) (init_rounds init n (suc i) (io ∷ list)) (h i)
    ∙ init_rounds-skipped init io list h n (suc i)
  where
    skipped :
        (r : Result ℕ) (again : Option (Result (Backend × ℕ)))
        → IsSkipped r
        → (elim r [ ok ctx ↦ some (ok (io, ctx)) | err enomem ↦ some (err enomem) | err e ↦ again ])
          ≡ again
    skipped (ok ctx) again s = absurd s
    skipped (err enomem) again s = absurd s
    skipped (err einval) again s = refl
    skipped (err eagain) again s = refl
    skipped (err ebusy) again s = refl
    skipped (err enoent) again s = refl
    skipped (err erange) again s = refl
    skipped (err enotsup) again s = refl

-- The first implementation for an address, if there is one for its type.
abbrev pub Preferred : AvtAddress → Backend → Type 0
Preferred addr io =
    (list : List Backend) × (avt_io_list (map_addr_to_io addr.type addr.proto) ≡ io ∷ list)

listed :
    (type : AvtIoType) (io : Backend) (list : List Backend)
    → avt_io_list type ≡ io ∷ list
    → is_invalid type ≡ false
unfolding avt_io_list
listed AvtIoType.null_io io list e = refl
listed AvtIoType.file_io io list e = refl
listed AvtIoType.fd_io io list e = refl
listed AvtIoType.unix_io io list e = refl
listed AvtIoType.udp_io io list e = refl
listed AvtIoType.udp_lite_io io list e = refl
listed AvtIoType.callback_io io list e = refl
listed AvtIoType.invalid io list e = cc

-- If the implementation that is preferred for an address does not open, at any attempt, and the error
-- is never ENOMEM, then avt_io_init does not end in any number of rounds: no other is tried.
pub avt_io_init-ne-some :
    (init : ℕ → Backend → Result ℕ) (n : ℕ) (addr : AvtAddress) (io : Backend)
    → Preferred addr io
    → ((i : ℕ) → IsSkipped (init i io))
    → avt_io_init init n addr ≡ none
unfolding avt_io_init
avt_io_init-ne-some init n addr io (list, e) h =
    rw (listed (map_addr_to_io addr.type addr.proto) io list e)
      (rw e (init_rounds-skipped init io list h n 0))

init_rounds-first :
    (init : ℕ → Backend → Result ℕ) (io : Backend) (list : List Backend) (n i : ℕ)
    (chosen : Backend) (ctx : ℕ)
    → init_rounds init n i (io ∷ list) ≡ some (ok (chosen, ctx))
    → chosen ≡ io
unfolding init_rounds
init_rounds-first init io list zero i chosen ctx e = cc
init_rounds-first init io list (suc n) i chosen ctx e =
    ground (arith, init_rounds-first init io list n (suc i) chosen ctx)

none_listed :
    (init : ℕ → Backend → Result ℕ) (n : ℕ) {chosen : Backend} {ctx : ℕ}
    → init_rounds init n 0 [] ≡ some (ok (chosen, ctx))
    → ⊥
unfolding init_rounds
none_listed init zero e = cc
none_listed init (suc n) e = cc

searched :
    (init : ℕ → Backend → Result ℕ) (n : ℕ) (addr : AvtAddress) (io : Backend) (ctx : ℕ)
    → avt_io_init init n addr ≡ some (ok (io, ctx))
    → init_rounds init n 0 (avt_io_list (map_addr_to_io addr.type addr.proto)) ≡ some (ok (io, ctx))
unfolding avt_io_init
searched init n addr io ctx e = ground arith

-- An implementation that avt_io_init opens is the preferred one for the address, whatever the others
-- answer, and an address has one if it is opened at all.
pub avt_io_init-Preferred :
    (init : ℕ → Backend → Result ℕ) (n : ℕ) (addr : AvtAddress) {io : Backend} {ctx : ℕ}
    → avt_io_init init n addr ≡ some (ok (io, ctx))
    → Preferred addr io
avt_io_init-Preferred init n addr {io} {ctx} e =
    by_list (avt_io_list (map_addr_to_io addr.type addr.proto)) refl (searched init n addr io ctx e)
  where
    by_list :
        (list : List Backend)
        → avt_io_list (map_addr_to_io addr.type addr.proto) ≡ list
        → init_rounds init n 0 list ≡ some (ok (io, ctx))
        → Preferred addr io
    by_list [] h r = absurd (none_listed init n r)
    by_list (first ∷ list) h r =
        let same = init_rounds-first init first list n 0 io ctx r in
        (list, h ∙ ap (λ b. b ∷ list) (sym same))
