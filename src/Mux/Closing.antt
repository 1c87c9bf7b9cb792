-- ===== src/Mux/Closing.antt =====
-- What `closeWithError` of internal/transport/vkturn/mux.go leaves of a session.
use tamizdat.Mux.Session.{
  Session, close_with_error, close_all, remote_close, remove_stream, put, update,
}
use tamizdat.Prelude.{
  ℕ, some, ◌≡◌, arith, inl, inr, Bool-cases, ◌⊎◌, refl, true, false, [], ◌∷◌, ◌∙◌, ◌==◌,
}
use tamizdat.Prelude.Assoc.{Assoc, lookup, erase}

-- The session is closed, no stream is in its table, and each stream of the old table is shut.
pub record IsEnded (s t : Session) : Type 0 where
  pub closed : t.rr_closed ≡ true
  pub emptied : t.streams ≡ []
  pub shut_all : (id h : ℕ) → lookup id s.streams ≡ some h → (t.objects h).shut ≡ true

pub remote_close-rr_closed : (h : ℕ) (s : Session) → (remote_close h s).rr_closed ≡ s.rr_closed
unfolding remote_close put remove_stream
remote_close-rr_closed h s = ground arith

remote_close-empty : (h : ℕ) (s : Session) → s.streams ≡ [] → (remote_close h s).streams ≡ []
unfolding remote_close put remove_stream erase
remote_close-empty h s e = elim (Bool-cases (s.objects h).shut) [
  | inl o ↦ rw (o, remote_close) e
  | inr o ↦ rw (o, remote_close) (rw e refl)
]

remote_close-shut :
    (h g : ℕ) (s : Session)
    → (h ≡ g) ⊎ ((s.objects g).shut ≡ true)
    → ((remote_close h s).objects g).shut ≡ true
unfolding remote_close put remove_stream update
remote_close-shut h g s w = elim (Bool-cases (s.objects h).shut) [
  | inl o ↦ rw (o, remote_close) (ground (arith, o))
  | inr o ↦ rw (o, remote_close) (ground (arith, o))
]

close_all-rr_closed : (all : Assoc ℕ) (s : Session) → (close_all all s).rr_closed ≡ s.rr_closed
unfolding close_all
close_all-rr_closed [] s = refl
close_all-rr_closed ((id, h) ∷ more) s =
    close_all-rr_closed more (remote_close h s) ∙ remote_close-rr_closed h s

close_all-empty : (all : Assoc ℕ) (s : Session) → s.streams ≡ [] → (close_all all s).streams ≡ []
unfolding close_all
close_all-empty [] s e = e
close_all-empty ((id, h) ∷ more) s e =
    close_all-empty more (remote_close h s) (remote_close-empty h s e)

close_all-keeps :
    (all : Assoc ℕ) (g : ℕ) (s : Session)
    → (s.objects g).shut ≡ true
    → ((close_all all s).objects g).shut ≡ true
unfolding close_all
close_all-keeps [] g s e = e
close_all-keeps ((id, h) ∷ more) g s e =
    close_all-keeps more g (remote_close h s) (remote_close-shut h g s (inr e))

close_all-shut :
    (all : Assoc ℕ) (id g : ℕ) (s : Session)
    → lookup id all ≡ some g
    → ((close_all all s).objects g).shut ≡ true
unfolding close_all lookup
close_all-shut [] id g s e = absurd (cc)
close_all-shut ((j, h) ∷ more) id g s e = elim (Bool-cases (j == id)) [
  | inl same ↦
      let here : h ≡ g = ground (arith, e, same) in
      close_all-keeps more g (remote_close h s) (remote_close-shut h g s (inl here))
  | inr other ↦
      let there : lookup id more ≡ some g = ground (arith, e, other) in
      close_all-shut more id g (remote_close h s) there
]

pub close_with_error-IsEnded : (s : Session) → s.rr_closed ≡ false → IsEnded s (close_with_error s)
unfolding close_with_error
close_with_error-IsEnded s o =
    let emptied : Session = record s { rr_closed = true; streams = [] } in
    rw (o, close_with_error)
      (record {
        closed = close_all-rr_closed s.streams emptied;
        emptied = close_all-empty s.streams emptied refl;
        shut_all = λ id h e. close_all-shut s.streams id h emptied e;
      })
