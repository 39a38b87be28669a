-- ===== src/Tcp/Sender.antt =====
-- What a session promises to its callers: a packet is accepted whole, or nothing of it is sent.
use multi_process_server.Base.{
  ◌≡◌, sym, ap, ◌∙◌, Bool, true, false, List, [], ◌∷◌, ◌++◌, append_assoc, append-nil, Bytes,
  concat,
}
use multi_process_server.Tcp.{Session}
use multi_process_server.Tcp.Stream.{stream}

pub data Posted (xs : Bytes) (s : Session) : Bool × Session → Type 0 where
  taken : {s' : Session} → stream s' ≡ stream s ++ xs → Posted xs s (true, s')
  refused : {s' : Session} → stream s' ≡ stream s → s'.can_write ≡ false → Posted xs s (false, s')

pub Posted-from :
    (xs : Bytes) (s s' : Session) {p : Bool × Session}
    → stream s' ≡ stream s
    → Posted xs s' p
    → Posted xs s p
Posted-from xs s s' e (taken h) = taken (h ∙ ap (λ v. v ++ xs) e)
Posted-from xs s s' e (refused h c) = refused (h ∙ e) c

-- A way to send a packet, with that promise.
pub record Sender : Type 0 where
  pub post : Bytes → Session → Bool × Session
  pub post-Posted : (xs : Bytes) (s : Session) → Posted xs s (post xs s)

-- Packets sent one after the other: those that were accepted, and the session.
pub record Run : Type 0 where
  pub accepted : List Bytes
  pub session : Session

abbrev pub counted : Bytes → Bool → Run → Run
counted xs true r = record r { accepted = xs ∷ r.accepted }
counted xs false r = r

module _ (sender : Sender) where
  unfoldable pub post_all : List Bytes → Session → Run
  post_all [] s = record { accepted = []; session = s }
  post_all (xs ∷ rest) s =
      let (ok, s') = Sender.post sender xs s in counted xs ok (post_all rest s')

  counted-stream :
      (xs : Bytes) (s : Session) {p : Bool × Session} (r : Run)
      → Posted xs s p
      → stream r.session ≡ stream p.1 ++ concat r.accepted
      → stream (counted xs p.0 r).session ≡ stream s ++ concat (counted xs p.0 r).accepted
  counted-stream xs s r (taken e) h =
      h ∙ ap (λ v. v ++ concat r.accepted) e ∙ append_assoc (stream s) xs (concat r.accepted)
  counted-stream xs s r (refused e c) h = h ∙ ap (λ v. v ++ concat r.accepted) e

  -- What was accepted by the kernel and what is pending after packets were sent is what it was before
  -- and the accepted packets behind it, each whole and in order, whatever the kernel replies.
  pub post_all-stream :
      (packets : List Bytes) (s : Session)
      → stream (post_all packets s).session ≡ stream s ++ concat (post_all packets s).accepted
  unfolding post_all
  post_all-stream [] s = sym (append-nil (stream s))
  post_all-stream (xs ∷ rest) s =
      let (ok, s') = Sender.post sender xs s in
      counted-stream xs s (post_all rest s') (Sender.post-Posted sender xs s)
        (post_all-stream rest s')
