-- ===== src/BuilderUnit/Checking.antt =====
-- `check_data`: which multievents the builder unit accepts.
use mathlib.Core.Path.{subst}
use lseb.Prelude.{
  ℕ, ◌%◌, ◌≡◌, ◌≢◌, refl, sym, ap, ◌∙◌, true, false, List, [], ◌∷◌, ok, ◌⊎◌, inl, inr, eq→==,
  ne→==_false, ok-injective, ℕ_discrete,
}
use lseb.DataFormat.{EventHeader, Iovec, Memory}
use lseb.BuilderUnit.{Link, front_header, check_links, check_data}

abbrev pub All : (Link → Type 0) → List Link → Type 0
All P [] = Unit {0}
All P (link ∷ links) = P link × All P links

-- The link has a piece, and the first one may hold a header.
abbrev pub HasFront : Link → Type 0
HasFront link =
    (iov : Iovec) × (iovs : List Iovec) × (link.iov_vect ≡ iov ∷ iovs) × (iov.base % 8 ≡ 0)

-- The link's first piece starts with event `first_evt_id`, which is not empty.
abbrev pub Starts : Memory EventHeader → ℕ → Link → Type 0
Starts headers first_evt_id link =
    (h : EventHeader) × (front_header headers link.iov_vect ≡ ok h)
    × (h.id ≡ first_evt_id)
    × (h.length ≢ 0)

module _ (headers : Memory EventHeader) where
  front_header-ok :
      (link : Link)
      → HasFront link
      → (h : EventHeader) × (front_header headers link.iov_vect ≡ ok h)
  unfolding front_header
  front_header-ok link (iov, iovs, e, a) = (headers iov.base, rw (e, eq→== (iov.base % 8) 0 a))

  check_links-Starts :
      (first_evt_id : ℕ) (links : List Link)
      → All HasFront links
      → ((check_links headers first_evt_id links ≡ ok true)
          × All (Starts headers first_evt_id) links)
        ⊎ ((check_links headers first_evt_id links ≡ ok false)
            × ¬ All (Starts headers first_evt_id) links)
  unfolding check_links
  check_links-Starts first_evt_id [] f = inl (refl, tt)
  check_links-Starts first_evt_id (link ∷ links) (f, fs) =
      let (h, e) = front_header-ok link f in
      elim (ℕ_discrete h.id first_evt_id) [
        | no other ↦ inr (
          rw (e, ne→==_false h.id first_evt_id other),
          λ ((h', e', i, l), _). other (ap (λ x. x.id) (ok-injective (sym e ∙ e')) ∙ i),
        )
        | yes same ↦ elim (ℕ_discrete h.length 0) [
          | yes empty ↦ inr (
            rw (e, eq→== h.id first_evt_id same, eq→== h.length 0 empty),
            λ ((h', e', i, l), _). l (sym (ap (λ x. x.length) (ok-injective (sym e ∙ e'))) ∙ empty),
          )
          | no some_bytes ↦ elim (check_links-Starts first_evt_id links fs) [
            | inl (r, s) ↦ inl (
              rw (e, eq→== h.id first_evt_id same, ne→==_false h.length 0 some_bytes, r),
              ((h, e, same, some_bytes), s),
            )
            | inr (r, s) ↦ inr (
              rw (e, eq→== h.id first_evt_id same, ne→==_false h.length 0 some_bytes, r),
              λ (_, t). s t,
            )
          ]
        ]
      ]

  named :
      (link : Link) (h : EventHeader)
      → front_header headers link.iov_vect ≡ ok h
      → (first_evt_id : ℕ) → Starts headers first_evt_id link
      → first_evt_id ≡ h.id
  named link h e i (h', e', same, _) = sym same ∙ ap (λ x. x.id) (ok-injective (sym e' ∙ e))

  -- If every link has a piece that may hold a header, `check_data` ends, and it is true exactly if
  -- the first pieces of all links start with the same event, and with one that is not empty.
  pub check_data-Starts :
      (link : Link) (links : List Link)
      → All HasFront (link ∷ links)
      → ((check_data headers (link ∷ links) ≡ ok true)
          × (first_evt_id : ℕ) × All (Starts headers first_evt_id) (link ∷ links))
        ⊎ ((check_data headers (link ∷ links) ≡ ok false)
            × ((first_evt_id : ℕ) → ¬ All (Starts headers first_evt_id) (link ∷ links)))
  unfolding check_data
  check_data-Starts link links f =
      let (h, e) = front_header-ok link f.0 in
      elim (check_links-Starts h.id (link ∷ links) f) [
        | inl (r, s) ↦ inl (rw (e, r), h.id, s)
        | inr (r, s) ↦ inr (
          rw (e, r),
          λ i t. s (subst (λ n. All (Starts headers n) (link ∷ links)) (named link h e i t.0) t),
        )
      ]
