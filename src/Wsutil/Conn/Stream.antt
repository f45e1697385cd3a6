-- ===== src/Wsutil/Conn/Stream.antt =====
-- internal/shared/wsutil/conn.go: the messages read as one stream of bytes.
use tunl.Base.{
  ℕ, zero, suc, ◌≤◌, ◌≡◌, refl, sym, ap, subst, ◌∙◌, true, false, Option, none, some, List, [], ◌∷◌,
  ◌++◌, arith, ltb, if◌then◌else◌, length, take, drop, length-take, Bool-cases, All, length-append,
  ◌-◌, inl, inr,
}
use mathlib.Core.List.{append_assoc, append-nil}
use tunl.Base.Result.{Result, ok, err, Result-cases}
use tunl.Wsutil.Conn.{
  Message, Sent, binary, close_frame, hang_up, Conn, new_conn, Reader, IsReader, ReadResult,
  read_current, read_next, read_part, read, write,
}

-- The bytes that are still to be read.
abbrev pub bytes_of : List Message → List ℕ
bytes_of [] = []
bytes_of (m ∷ ms) = if m.is_binary then m.payload ++ bytes_of ms else bytes_of ms

abbrev pub pending_in : Option (List ℕ) → List Message → List ℕ
pending_in none ms = bytes_of ms
pending_in (some bytes) ms = bytes ++ bytes_of ms

abbrev pub pending : Conn → List ℕ
pending c = pending_in c.reader c.messages

-- What a read of at most `k` bytes does to the stream `bytes`: it takes a piece from its front, which is
-- not empty, or fails at its end.
abbrev pub Takes : ℕ → List ℕ → List ℕ → Result (Unit {0}) (List ℕ) → Type 0
Takes k bytes rest (ok piece) = (piece ++ rest ≡ bytes) × ((length piece ≤ k) × (1 ≤ length piece))
Takes k bytes rest (err _) = (bytes ≡ []) × (rest ≡ [])

abbrev TakesFrom : ℕ → List ℕ → ReadResult → Type 0
TakesFrom k bytes x = Takes k bytes (pending_in x.0.0 x.0.1) x.1

take_and_drop : (n : ℕ) (xs ys : List ℕ) → take n xs ++ (drop n xs ++ ys) ≡ xs ++ ys
take_and_drop zero xs ys = refl
take_and_drop (suc n) [] ys = refl
take_and_drop (suc n) (x ∷ xs) ys = ap (λ zs. x ∷ zs) (take_and_drop n xs ys)

take-length : (xs : List ℕ) → take (length xs) xs ≡ xs
take-length [] = refl
take-length (x ∷ xs) = ap (λ zs. x ∷ zs) (take-length xs)

no_length : (xs : List ℕ) → length xs ≡ 0 → xs ≡ []
no_length [] e = refl
no_length (x ∷ xs) e = absurd (omega (arith, e))

module _ (r : Reader) (is_reader : IsReader r) (k : ℕ) (pos_k : 1 ≤ k) where
  length-piece :
      (bytes : List ℕ)
      → 1 ≤ (r bytes k).0
      → (length (take (r bytes k).0 bytes) ≤ k) × (1 ≤ length (take (r bytes k).0 bytes))
  length-piece bytes l =
      let w = is_reader.within bytes k in
      let t = length-take (r bytes k).0 bytes in (omega (arith, w, t), omega (arith, w, t, l))

  read_current-Takes :
      (bytes : List ℕ) (ms : List Message) (next : ReadResult)
      → TakesFrom k (bytes_of ms) next
      → TakesFrom k (bytes ++ bytes_of ms) (read_current r k bytes ms next)
  unfolding read_current
  read_current-Takes bytes ms next t =
      let n = (r bytes k).0 in
      let out = read_current r k bytes ms next in
      elim (Bool-cases (r bytes k).1) [
        | inr q ↦
            subst (TakesFrom k (bytes ++ bytes_of ms))
              {x = ((some (drop n bytes), ms), ok (take n bytes))} {y = out} (ground arith)
              (
                take_and_drop n bytes (bytes_of ms),
                length-piece bytes (is_reader.moves bytes k pos_k q),
              )
        | inl q ↦
            let all : n ≡ length bytes = is_reader.ends bytes k q in
            elim (Bool-cases (ltb 0 n)) [
              | inl w ↦
                  let whole : take n bytes ≡ bytes =
                    ap (λ i. take i bytes) all ∙ take-length bytes in
                  subst (TakesFrom k (bytes ++ bytes_of ms)) {x = ((none, ms), ok (take n bytes))}
                    {y = out} (ground arith)
                    (ap (λ xs. xs ++ bytes_of ms) whole, length-piece bytes (ground arith))
              | inr w ↦
                  let nothing : [] ≡ bytes = sym (no_length bytes (ground arith)) in
                  subst (TakesFrom k (bytes ++ bytes_of ms)) {x = next} {y = out} (ground arith)
                    (subst (λ xs. TakesFrom k (xs ++ bytes_of ms) next) nothing t)
            ]
      ]

  read_next-Takes : (ms : List Message) → TakesFrom k (bytes_of ms) (read_next r k ms)
  unfolding read_next
  read_next-Takes [] = (refl, refl)
  read_next-Takes (m ∷ ms) =
      let next = read_next-Takes ms in
      elim (Bool-cases m.is_binary) [
        | inl q ↦
            subst (λ xs. TakesFrom k xs (read_next r k (m ∷ ms))) {x = m.payload ++ bytes_of ms}
              (ground arith)
              (subst (TakesFrom k (m.payload ++ bytes_of ms))
                {x = read_current r k m.payload ms (read_next r k ms)} {y = read_next r k (m ∷ ms)}
                (ground arith) (read_current-Takes m.payload ms (read_next r k ms) next))
        | inr q ↦
            subst (λ xs. TakesFrom k xs (read_next r k (m ∷ ms))) {x = bytes_of ms} (ground arith)
              (subst (TakesFrom k (bytes_of ms)) {x = read_next r k ms} {y = read_next r k (m ∷ ms)}
                (ground arith) next)
      ]

  read_part-Takes :
      (reader : Option (List ℕ)) (ms : List Message)
      → TakesFrom k (pending_in reader ms) (read_part r k reader ms)
  unfolding read_part
  read_part-Takes none ms = read_next-Takes ms
  read_part-Takes (some bytes) ms =
      read_current-Takes bytes ms (read_next r k ms) (read_next-Takes ms)

  read-Takes : (c : Conn) → Takes k (pending c) (pending (read r k c).0) (read r k c).1
  unfolding read
  read-Takes c = read_part-Takes c.reader c.messages

-- Reads with buffers of the sizes `ks`, until one fails: what they gave together, and what is left.
unfoldable pub read_all : Reader → List ℕ → Conn → List ℕ × Conn
unfolding read
read_all r [] c = ([], c)
read_all r (k ∷ ks) c = elim (read r k c).1 [
  | err _ ↦ ([], (read r k c).0)
  | ok piece ↦ let rest = read_all r ks (read r k c).0 in (piece ++ rest.0, rest.1)
]

-- The messages of one side as the other one gets them.
abbrev pub received : List Sent → List Message
received [] = []
received (binary p ∷ ss) = record { is_binary = true; payload = p } ∷ received ss
received (close_frame ∷ ss) = received ss
received (hang_up ∷ ss) = received ss

abbrev pub write_all : List (List ℕ) → Conn → Conn
write_all [] c = c
write_all (p ∷ ps) c = write_all ps (write false p c).0

-- Every buffer has room.
abbrev pub Room : List ℕ → Type 0
Room = All (λ k. 1 ≤ k)

read_all-Takes :
    (r : Reader) (ks : List ℕ) (c : Conn)
    → IsReader r
    → Room ks
    → ((read_all r ks c).0 ++ pending (read_all r ks c).1 ≡ pending c)
      × (length (pending (read_all r ks c).1) ≤ length (pending c) - length ks)
unfolding read_all
read_all-Takes r [] c i a = (refl, omega arith)
read_all-Takes r (k ∷ ks) c i a =
    let c' = (read r k c).0 in
    let t = read-Takes r i k a.0 c in
    elim (Result-cases (read r k c).1) [
      | inl (e, q) ↦
          let (before, after) = subst (Takes k (pending c) (pending c')) q t in
          let all : read_all r (k ∷ ks) c ≡ ([], c') = ground arith in
          subst
            (λ x.
              (x.0 ++ pending x.1 ≡ pending c)
              × (length (pending x.1) ≤ length (pending c) - length (k ∷ ks)))
            (sym all) (after ∙ sym before, omega (arith, ap length after))
      | inr (piece, q) ↦
          let (front, (_, some_bytes)) = subst (Takes k (pending c) (pending c')) q t in
          let (ih, fewer) = read_all-Takes r ks c' i a.1 in
          let rest = read_all r ks c' in
          let all : read_all r (k ∷ ks) c ≡ (piece ++ rest.0, rest.1) = ground arith in
          let lengths = ap length front in
          subst
            (λ x.
              (x.0 ++ pending x.1 ≡ pending c)
              × (length (pending x.1) ≤ length (pending c) - length (k ∷ ks)))
            (sym all)
            (
              append_assoc piece rest.0 (pending rest.1) ∙ ap (λ xs. piece ++ xs) ih ∙ front,
              omega (arith, fewer, some_bytes, lengths, length-append piece (pending c')),
            )
    ]

abbrev pub join : List (List ℕ) → List ℕ
join [] = []
join (p ∷ ps) = p ++ join ps

bytes_of-received :
    (ss : List Sent) (p : List ℕ)
    → bytes_of (received (ss ++ (binary p ∷ []))) ≡ bytes_of (received ss) ++ p
bytes_of-received [] p = append-nil p
bytes_of-received (binary q ∷ ss) p =
    ap (λ xs. q ++ xs) (bytes_of-received ss p) ∙ sym (append_assoc q (bytes_of (received ss)) p)
bytes_of-received (close_frame ∷ ss) p = bytes_of-received ss p
bytes_of-received (hang_up ∷ ss) p = bytes_of-received ss p

bytes_of-write_all :
    (ps : List (List ℕ)) (c : Conn)
    → bytes_of (received (write_all ps c).sent) ≡ bytes_of (received c.sent) ++ join ps
unfolding write
bytes_of-write_all [] c = sym (append-nil (bytes_of (received c.sent)))
bytes_of-write_all (p ∷ ps) c =
    bytes_of-write_all ps (write false p c).0
    ∙ ap (λ xs. xs ++ join ps) (bytes_of-received c.sent p)
    ∙ append_assoc (bytes_of (received c.sent)) p (join ps)

-- What one side writes, the other reads as one stream of bytes, however the writes were cut and however
-- the reader of a message cuts it: what the reads gave, with what is left, is what was written. Each
-- read takes at least one byte while there are some, so as many reads as bytes take them all. Every
-- buffer has room, and the reader of a message does what `io.Reader` promises.
pub read_all-write_all :
    (r : Reader) (ps : List (List ℕ)) (ks : List ℕ)
    → IsReader r
    → Room ks
    → let end = read_all r ks (new_conn (received (write_all ps (new_conn [])).sent)) in
      (end.0 ++ pending end.1 ≡ join ps) × (length (pending end.1) ≤ length (join ps) - length ks)
unfolding new_conn
read_all-write_all r ps ks i a =
    let c = new_conn (received (write_all ps (new_conn [])).sent) in
    let same : pending c ≡ join ps = bytes_of-write_all ps (new_conn []) in
    let (all, fewer) = read_all-Takes r ks c i a in
    (all ∙ same, omega (arith, fewer, ap length same))
