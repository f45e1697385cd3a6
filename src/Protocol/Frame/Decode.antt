-- ===== src/Protocol/Frame/Decode.antt =====
-- internal/shared/protocol/frame.go: `ReadFrame` on any input, and `Release`.
use tunl.Base.{
  ℕ, zero, suc, ◌+◌, ◌≤◌, ◌<◌, ◌≡◌, ◌⊎◌, refl, sym, ◌∙◌, subst, [], ◌∷◌, ◌++◌, arith, ltb, leb,
  Text, length, take, drop, All, ok, err, length-take, take-append-drop, Bool-cases, inl, inr,
}
use tunl.Base.Result.{Result}
use tunl.Protocol.Pool.{size_large}
use tunl.Protocol.Frame.{
  Frame, Source, max_frame_size, frame_header_size, header_of, put_uint32, uint32, read_full,
  read_body, read_frame, new_frame, new_frame_pooled, FrameError, read_header, payload_too_large,
  read_payload, release, short,
}
use tunl.Protocol.Frame.RoundTrip.{encode, received, buffer_for, lent_by}

abbrev pub IsByte : ℕ → Type 0
IsByte b = b < 256

pub read_full_cases :
    (n : ℕ) (i : Text)
    → ((p : Text) × (rest : Text) × (read_full n i ≡ ok (p, rest))
        × (i ≡ p ++ rest)
        × (length p ≡ n))
      ⊎ ((read_full n i ≡ err (short i)) × (length i < n))
unfolding read_full
read_full_cases n i = elim (Bool-cases (leb n (length i))) [
  | inl e ↦
      inl (take n i, drop n i, rw e, sym (take-append-drop n i), ground (arith, length-take n i))
  | inr e ↦ inr (rw e, ground arith)
]

-- What a read of the body can give.
data Body (t n : ℕ) (i : Text) (lent : ℕ) (r : Result FrameError Frame × Source) : Type 0 where
  whole :
      (p rest : Text)
      → i ≡ p ++ rest
      → length p ≡ n
      → r ≡ (
        ok (received (new_frame t p)),
        record { input = rest; lent = lent + lent_by (buffer_for (length p)) },
      )
      → Body t n i lent r
  cut :
      length i < n
      → r ≡ (err (read_payload (short i)), record { input = []; lent = lent })
      → Body t n i lent r

read_body-Body : (t n : ℕ) (i : Text) (lent : ℕ) → Body t n i lent (read_body t n i lent)
unfolding read_body new_frame new_frame_pooled
read_body-Body t zero i lent = whole [] i refl refl (ground arith)
read_body-Body t (suc n) i lent = elim (read_full_cases (suc n) i) [
  | inl (p, rest, e, s, l) ↦ whole p rest s l (
      rw l (elim (Bool-cases (ltb size_large (suc n))) [
        | inl big ↦ rw (big, e, read_body) (ground arith)
        | inr small ↦ rw (small, e, read_body) (ground arith)
      ]))
  | inr (e, l) ↦ cut l (elim (Bool-cases (ltb size_large (suc n))) [
    | inl big ↦ rw (big, e, read_body) (ground arith)
    | inr small ↦ rw (small, e, read_body) (ground arith)
  ])
]

-- Every outcome of `ReadFrame`, with the input that leads to it and what it leaves.
pub data Reads (s : Source) (r : Result FrameError Frame × Source) : Type 0 where
  arrived :
      (f : Frame) (rest : Text)
      → s.input ≡ encode f ++ rest
      → length f.payload ≤ max_frame_size
      → r ≡ (
        ok (received f),
        record { input = rest; lent = s.lent + lent_by (buffer_for (length f.payload)) },
      )
      → Reads s r
  no_header :
      length s.input < frame_header_size
      → r ≡ (err (read_header (short s.input)), record s { input = [] })
      → Reads s r
  oversized :
      (a b c d t : ℕ) (rest : Text)
      → s.input ≡ a ∷ b ∷ c ∷ d ∷ t ∷ rest
      → max_frame_size < uint32 a b c d
      → r ≡ (err (payload_too_large (uint32 a b c d)), record s { input = rest })
      → Reads s r
  cut_off :
      (a b c d t : ℕ) (rest : Text)
      → s.input ≡ a ∷ b ∷ c ∷ d ∷ t ∷ rest
      → uint32 a b c d ≤ max_frame_size
      → length rest < uint32 a b c d
      → r ≡ (err (read_payload (short rest)), record s { input = [] })
      → Reads s r

put_uint32-uint32 :
    (a b c d : ℕ)
    → IsByte a
    → IsByte b
    → IsByte c
    → IsByte d
    → put_uint32 (uint32 a b c d) ≡ a ∷ b ∷ c ∷ d ∷ []
unfolding put_uint32 uint32
put_uint32-uint32 a b c d ha hb hc hd = ground arith

header_of_lem : (f : Frame) → header_of f ≡ put_uint32 (length f.payload) ++ (f.frame_type ∷ [])
unfolding header_of
header_of_lem f = refl

encode_lem :
    (a b c d t : ℕ) (p more : Text)
    → IsByte a
    → IsByte b
    → IsByte c
    → IsByte d
    → length p ≡ uint32 a b c d
    → encode (new_frame t p) ++ more ≡ a ∷ b ∷ c ∷ d ∷ t ∷ (p ++ more)
unfolding new_frame
encode_lem a b c d t p more ha hb hc hd l =
    rw (header_of_lem (new_frame t p), l, put_uint32-uint32 a b c d ha hb hc hd) refl

-- What follows a whole header.
after_header :
    (s : Source) (a b c d t : ℕ) (rest : Text)
    → IsByte a
    → IsByte b
    → IsByte c
    → IsByte d
    → s.input ≡ a ∷ b ∷ c ∷ d ∷ t ∷ rest
    → read_full frame_header_size s.input ≡ ok (a ∷ b ∷ c ∷ d ∷ t ∷ [], rest)
    → Reads s (read_frame s)
unfolding read_frame new_frame
after_header s a b c d t rest ha hb hc hd i e =
    elim (Bool-cases (ltb max_frame_size (uint32 a b c d))) [
      | inl big ↦ oversized a b c d t rest i (ground arith) (rw (e, read_frame) (rw big refl))
      | inr fits ↦
          go (read_body-Body t (uint32 a b c d) rest s.lent) (rw (e, read_frame) (rw fits refl))
            (ground arith)
    ]
  where
    go :
        Body t (uint32 a b c d) rest s.lent (read_body t (uint32 a b c d) rest s.lent)
        → read_frame s ≡ read_body t (uint32 a b c d) rest s.lent
        → uint32 a b c d ≤ max_frame_size
        → Reads s (read_frame s)
    go (whole p more q l f) r fits =
        arrived (new_frame t p) more (i ∙ rw q (sym (encode_lem a b c d t p more ha hb hc hd l)))
          (omega arith) (r ∙ f)
    go (cut l f) r fits = cut_off a b c d t rest i fits l (r ∙ f)

after_full :
    (s : Source) (p rest : Text)
    → length p ≡ 5
    → read_full frame_header_size s.input ≡ ok (p, rest)
    → s.input ≡ p ++ rest
    → All IsByte (p ++ rest)
    → Reads s (read_frame s)
after_full s (a ∷ b ∷ c ∷ d ∷ t ∷ []) rest l e i h =
    after_header s a b c d t rest h.0 h.1.0 h.1.1.0 h.1.1.1.0 i e
after_full s [] rest l e i h = absurd (omega arith)
after_full s (a ∷ []) rest l e i h = absurd (omega arith)
after_full s (a ∷ b ∷ []) rest l e i h = absurd (omega arith)
after_full s (a ∷ b ∷ c ∷ []) rest l e i h = absurd (omega arith)
after_full s (a ∷ b ∷ c ∷ d ∷ []) rest l e i h = absurd (omega arith)
after_full s (a ∷ b ∷ c ∷ d ∷ t ∷ u ∷ p) rest l e i h = absurd (omega arith)

-- A call of `ReadFrame` has one of these outcomes, on any bytes.
pub read_frame-Reads : (s : Source) → All IsByte s.input → Reads s (read_frame s)
unfolding read_frame
read_frame-Reads s h = elim (read_full_cases frame_header_size s.input) [
  | inr (e, l) ↦ no_header l (rw (e, read_frame) refl)
  | inl (p, rest, e, i, l) ↦ after_full s p rest l e i (subst (All IsByte) i h)
]

lent_back :
    (f g : Frame) (lent : ℕ)
    → received f ≡ g
    → (release g (lent + lent_by (buffer_for (length f.payload)))).1 ≡ lent
unfolding release
lent_back f g lent e = rw (← e) (ground arith)

-- Whatever `ReadFrame` returns, no pooled buffer is lost: an error leaves as many buffers lent out
-- as before, and so does the `Release` of a frame that was read.
pub read_frame-release :
    (s : Source)
    → All IsByte s.input
    → ((e : FrameError) → (read_frame s).0 ≡ err e → (read_frame s).1.lent ≡ s.lent)
      × ((g : Frame) → (read_frame s).0 ≡ ok g → (release g (read_frame s).1.lent).1 ≡ s.lent)
read_frame-release s h = elim (read_frame-Reads s h) [
  | arrived f rest i l r ↦ rw r ((λ e x. cc), λ g x. lent_back f g s.lent (cc))
  | no_header l r ↦ rw r ((λ e x. refl), λ g x. cc)
  | oversized a b c d t rest i l r ↦ rw r ((λ e x. refl), λ g x. cc)
  | cut_off a b c d t rest i l m r ↦ rw r ((λ e x. refl), λ g x. cc)
]
