-- ===== src/Sdr/Tests.antt =====
-- An announcement with a type and authentication, one that deletes a session, and one without a type.
use network_program.Prelude.{
  ℕ, ◌≡◌, refl, [], ◌∷◌, ◌++◌, replicate, length-replicate, Option, none, arith,
}
use network_program.Sys.{done}
use network_program.Sdr.{application_sdp, buffer_size, loop}
use network_program.Sdr.Announced.{Announcement, IsAnnouncement, arrivals, loop-texts}

abbrev typed : Announcement
typed = record {
  head = 32;
  h0 = 18;
  h1 = 52;
  source = 10 ∷ 0 ∷ 0 ∷ 1 ∷ [];
  authentication = 1 ∷ 2 ∷ 0 ∷ [];
  payload = application_sdp ++ 0 ∷ b'v' ∷ b'=' ∷ b'0' ∷ [];
}

abbrev deletion : Announcement
deletion = record typed { head = 36 }

abbrev untyped : Announcement
untyped = record {
  head = 0;
  h0 = 0;
  h1 = 0;
  source = 10 ∷ 0 ∷ 0 ∷ 2 ∷ [];
  authentication = [];
  payload = b'v' ∷ [];
}

typed-IsAnnouncement : IsAnnouncement typed
typed-IsAnnouncement = record {
  head = omega arith;
  short = omega arith;
  low = omega arith;
  high = omega arith;
  address = refl;
  described = λ e. cc e;
  fits = omega arith;
}

deletion-IsAnnouncement : IsAnnouncement deletion
deletion-IsAnnouncement = record {
  head = omega arith;
  short = omega arith;
  low = omega arith;
  high = omega arith;
  address = refl;
  described = λ e. cc e;
  fits = omega arith;
}

untyped-IsAnnouncement : IsAnnouncement untyped
untyped-IsAnnouncement = record {
  head = omega arith;
  short = omega arith;
  low = omega arith;
  high = omega arith;
  address = refl;
  described = λ e. cc e;
  fits = omega arith;
}

loop-texts_example :
    loop (arrivals (typed ∷ deletion ∷ untyped ∷ [])) (replicate buffer_size none)
    ≡ done ((b'v' ∷ b'=' ∷ b'0' ∷ []) ∷ (b'v' ∷ []) ∷ [])
loop-texts_example =
    loop-texts (typed ∷ deletion ∷ untyped ∷ []) (replicate buffer_size none)
      (typed-IsAnnouncement, (deletion-IsAnnouncement, (untyped-IsAnnouncement, tt)))
      (length-replicate {A = Option ℕ} buffer_size none)
