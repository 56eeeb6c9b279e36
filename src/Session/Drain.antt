-- ===== src/Session/Drain.antt =====
-- The loop of `session::on_recv` in source/bee/io/session.cpp, on a stream of frames.
use cassobee.Base.{
  ℕ, zero, suc, ◌+◌, ◌^◌, ◌≡◌, ◌≤◌, ◌<◌, ◌∙◌, ap, sym, refl, arith, some, List, [], ◌∷◌, ◌++◌,
  length, append_assoc, append-nil, ◌-◌, false,
}
use cassobee.Octets.{Octets}
use cassobee.Octets.Inv.{IsValid}
use cassobee.Stream.{Stream, unread, size, data_ready}
use cassobee.Stream.Effects.{Pops, unread_after, pos_inside}
use cassobee.SessionState.{Status}
use cassobee.Protocol.{Kind, Protocol, Stubs, get_protocol, init_session}
use cassobee.Protocol.Decode.{data_ready-le, decode_nothing}
use cassobee.Protocol.Frame.{frame}
use cassobee.Protocol.Framing.{decode-frame}
use cassobee.Session.{drain, taken, returned}

-- What the sender put into one frame, and the stub that the receiver has for it.
pub record Sent (Body : Type 0) : Type 0 where
  pub id : ℕ
  pub stub : Protocol Body
  pub body : Body
  pub bytes : List ℕ

abbrev pub frames : {Body : Type 0} → List (Sent Body) → List ℕ
frames [] = []
frames (x ∷ xs) = frame x.id x.bytes ++ frames xs

-- One round of the loop for each frame, and as many as `fuel` behind them.
abbrev pub steps : {Body : Type 0} → List (Sent Body) → ℕ → ℕ
steps [] fuel = fuel
steps (x ∷ xs) fuel = suc (steps xs fuel)

-- The protocols that come out.
abbrev pub received : {Body : Type 0} → Status → List (Sent Body) → List (Protocol Body)
received ses [] = []
received ses (x ∷ xs) = record (init_session (some ses) x.stub) { body = x.body } ∷ received ses xs

module _ {Body : Type 0} (k : Kind Body) (stubs : Stubs Body) where
  -- That the receiver knows the type of the frame and reads its body from its bytes.
  pub record IsKnown (x : Sent Body) : Type 0 where
    pub small : x.id < 2 ^ 32
    pub there : get_protocol x.id stubs ≡ some x.stub
    pub short : length x.bytes < 2 ^ 14
    pub unpacks : Pops (k.unpack x.stub.body) x.bytes x.body

  abbrev pub AllKnown : List (Sent Body) → Type 0
  AllKnown [] = Unit {0}
  AllKnown (x ∷ xs) = IsKnown x × AllKnown xs

  -- Whole frames at the read position all come out, in their order, and the loop goes on with what
  -- is behind them.
  drain-frames_then :
      (xs : List (Sent Body)) (fuel : ℕ) (s : Stream) (ses : Status) (tail : List ℕ)
      → AllKnown xs
      → IsValid s.content
      → s.pos ≤ size s
      → unread s ≡ frames xs ++ tail
      → (t : Stream) × ((drain k stubs (steps xs fuel) s ses).ran
          ≡ received ses xs ++ (drain k stubs fuel t ses).ran)
        × ((drain k stubs (steps xs fuel) s ses).stream ≡ (drain k stubs fuel t ses).stream)
        × ((drain k stubs (steps xs fuel) s ses).ending ≡ (drain k stubs fuel t ses).ending)
        × (t.content ≡ s.content)
        × (t.pos ≤ size s)
        × (unread t ≡ tail)
  unfolding drain
  drain-frames_then [] fuel s ses tail known v at e = (s, refl, refl, refl, refl, at, e)
  drain-frames_then (x ∷ xs) fuel s ses tail (h, hs) v at e =
      let e' : unread s ≡ frame x.id x.bytes ++ (frames xs ++ tail) =
        e ∙ append_assoc (frame x.id x.bytes) (frames xs) tail in
      let one =
        decode-frame k stubs ses x.id x.stub x.body x.bytes h.small h.there h.short h.unpacks s
          (frames xs ++ tail) v at e' in
      let s' : Stream = record s { pos = s.pos + length (frame x.id x.bytes); transpos = s.pos } in
      let (t, er, es, ee, ec, ep, eu) =
        drain-frames_then xs fuel s' ses tail hs v
          (omega (arith, pos_inside s (frame x.id x.bytes) (frames xs ++ tail) v at e'))
          (unread_after s (frame x.id x.bytes) (frames xs ++ tail) e') in
      (
        t,
        ap (λ r. (taken (drain k stubs (steps xs fuel)) r).ran) one
            ∙ ap (λ l. record (init_session (some ses) x.stub) { body = x.body } ∷ l) er,
        ap (λ r. (taken (drain k stubs (steps xs fuel)) r).stream) one ∙ es,
        ap (λ r. (taken (drain k stubs (steps xs fuel)) r).ending) one ∙ ee,
        ec,
        ep,
        eu,
      )

  steps_enough :
      (xs : List (Sent Body)) (fuel : ℕ)
      → length xs < fuel
      → steps xs (suc (fuel - length xs - 1)) ≡ fuel
  steps_enough [] fuel h = omega arith
  steps_enough (x ∷ xs) zero h = absurd (omega arith)
  steps_enough (x ∷ xs) (suc fuel) h =
      ap suc (ap (λ (n : ℕ). steps xs (suc n)) (omega arith) ∙ steps_enough xs fuel (omega arith))

  pub drain_none :
      (fuel : ℕ) (t : Stream) (ses : Status)
      → IsValid t.content
      → t.pos ≤ size t
      → unread t ≡ []
      → drain k stubs (suc fuel) t ses
        ≡ record { ran = []; stream = t; status = ses; ending = returned }
  unfolding drain
  drain_none fuel t ses v at e =
      let nothing : data_ready 1 t ≡ false =
        data_ready-le 1 t v at ∙ ground (arith, pos_inside t [] [] v at e) in
      ap (taken (drain k stubs fuel)) (decode_nothing k stubs ses t nothing)

  -- Frames of known types with bodies below 2 ^ 14 bytes that fill a stream up to its end all run,
  -- in their order. With more fuel than there are frames the loop ends by itself and leaves
  -- nothing to read.
  pub drain-frames :
      (xs : List (Sent Body)) (fuel : ℕ) (s : Stream) (ses : Status)
      → AllKnown xs
      → IsValid s.content
      → s.pos ≤ size s
      → unread s ≡ frames xs
      → length xs < fuel
      → ((drain k stubs fuel s ses).ran ≡ received ses xs)
        × ((drain k stubs fuel s ses).ending ≡ returned)
        × (unread (drain k stubs fuel s ses).stream ≡ [])
  drain-frames xs fuel s ses known v at e enough =
      let n : ℕ = fuel - length xs - 1 in
      let (t, er, es, ee, ec, ep, eu) =
        drain-frames_then xs (suc n) s ses [] known v at (e ∙ sym (append-nil (frames xs))) in
      let last =
        drain_none n t ses (rw ec v) (omega (arith, ep, ap (λ (o : Octets). o.len) ec)) eu in
      rw (sym (steps_enough xs fuel enough)) (
        er ∙ ap (λ d. received ses xs ++ d.ran) last ∙ append-nil (received ses xs),
        ee ∙ ap (λ d. d.ending) last,
        ap unread (es ∙ ap (λ d. d.stream) last) ∙ eu,
      )
