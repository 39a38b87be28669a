-- ===== src/Forward/Server/Release.antt =====
-- ForwardServer.cpp: what is left of a subscriber that is lost, and of channels without subscribers.
use multi_process_server.Base.{
  ℕ, ◌≡◌, refl, ◌∙◌, ==_iff, Bool, false, if_elim, List, [], ◌∷◌, find, erase, find-erase, none,
}
use multi_process_server.Forward.Publisher.{Channels, is_empty, unsubscribe_all}
use multi_process_server.Forward.Server.{
  Server, Notice, release_empty, release_channels, on_packet_error,
}

-- Every channel has a subscriber.
abbrev pub AllFilled : Channels → Type 0
AllFilled [] = Unit {0}
AllFilled ((j, c) ∷ m) = (is_empty c.subscribers ≡ false) × AllFilled m

-- No channel has the session.
abbrev pub AllWithout : ℕ → Channels → Type 0
AllWithout id [] = Unit {0}
AllWithout id ((j, c) ∷ m) = (find id c.subscribers ≡ none) × AllWithout id m

release_empty-AllFilled : (r : Bool) (m : Channels) → AllFilled (release_empty r m).0
unfolding release_empty
release_empty-AllFilled r [] = tt
release_empty-AllFilled r ((j, c) ∷ m) =
    if_elim (λ (p : Channels × List Notice). AllFilled p.0) (is_empty c.subscribers)
      (λ _. release_empty-AllFilled r m) (λ e. (e, release_empty-AllFilled r m))

release_empty-AllWithout :
    (id : ℕ) (r : Bool) (m : Channels) → AllWithout id m → AllWithout id (release_empty r m).0
unfolding release_empty
release_empty-AllWithout id r [] h = tt
release_empty-AllWithout id r ((j, c) ∷ m) (h, hs) =
    if_elim (λ (p : Channels × List Notice). AllWithout id p.0) (is_empty c.subscribers)
      (λ _. release_empty-AllWithout id r m hs) (λ _. (h, release_empty-AllWithout id r m hs))

find-erase_same : {V : Type 0} (id : ℕ) (m : List (ℕ × V)) → find id (erase id m) ≡ none
find-erase_same id m = find-erase id id m ∙ rw ((==_iff id id).1 refl) refl

unsubscribe_all-AllWithout : (id : ℕ) (m : Channels) → AllWithout id (unsubscribe_all id m)
unfolding unsubscribe_all
unsubscribe_all-AllWithout id [] = tt
unsubscribe_all-AllWithout id ((j, c) ∷ m) =
    (find-erase_same id c.subscribers, unsubscribe_all-AllWithout id m)

-- After a subscriber was lost neither the server nor a channel has its session, and every channel that
-- is left has a subscriber.
pub on_packet_error-AllFilled :
    (id : ℕ) (s : Server)
    → let s' = on_packet_error id s in
      (find id s'.subscribers ≡ none) × AllWithout id s'.channels × AllFilled s'.channels
unfolding on_packet_error release_channels
on_packet_error-AllFilled id s =
    let m = unsubscribe_all id s.channels in
    (
      find-erase_same id s.subscribers,
      release_empty-AllWithout id s.is_realtime m (unsubscribe_all-AllWithout id s.channels),
      release_empty-AllFilled s.is_realtime m,
    )
