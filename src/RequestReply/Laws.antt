-- ===== src/RequestReply/Laws.antt =====
-- What the messages and subjects of software_bus/request_reply.py satisfy.
use software_bus.Prelude.{
  ℕ, ◌+◌, ◌≡◌, ◌≢◌, refl, sym, ap, ◌∙◌, arith, leb, ◌==◌, ==_iff, ◌||◌, Bool, true, false, List, [],
  ◌∷◌, ◌++◌, length, take, drop, all, any, ok, Bool-cases, inl, inr, append_assoc, length-append,
  take-length-append, drop-length-append, take-append-drop, ok-injective, bind_inversion,
}
use software_bus.Text.{Text, Bytes, text_eq, text_eq_sound, text_eq_refl}
use software_bus.Text.Split.{split, push_first, split-ne-nil}
use software_bus.SubjectMatcher.{has_wildcard, wildcard}
use software_bus.PubSub.Codec.{encode_subject}
use software_bus.PubSub.Codec.Subject.{encode_subject-Header, decode_subject-Header}
use software_bus.RequestReply.{
  reply_prefix, RequestMessage, encode_request, decode_request, derived_reply_subject, is_unique_id,
  is_unique_id_char, last, is_valid_reply_subject, is_reply_subject_for,
}

-- Decoding an encoded request gives the request back.
pub decode_request-encode_request :
    (m : RequestMessage) (bytes : Bytes) → encode_request m ≡ ok bytes → decode_request bytes ≡ ok m
unfolding encode_request decode_request
decode_request-encode_request m bytes e =
    let (h, a, b) = bind_inversion (encode_subject m.reply_subject) _ e in
    let p = encode_subject-Header m.reply_subject h a in
    let same : h ++ m.payload ≡ bytes = ok-injective b in
    ap decode_request (sym same)
    ∙ rw (decode_subject-Header 0 [] m.reply_subject h m.payload p refl) (
        ap (λ x. ok (record { reply_subject = m.reply_subject; payload = x }))
          (ap (λ n. drop n (h ++ m.payload)) zero_plus ∙ drop-length-append h m.payload))
  where
    zero_plus : {n : ℕ} → 0 + n ≡ n
    zero_plus = omega arith

-- What a reply subject starts with.
abbrev start : Text → Text
start request = reply_prefix ++ b'.' ∷ (request ++ b'.' ∷ [])

starts-length :
    (r a : Text)
    → is_reply_subject_for r a ≡ true
    → (take (length (start a)) r ≡ start a) × (length r ≡ length (start a) + 32)
unfolding is_reply_subject_for is_unique_id
starts-length r a h =
    let t = text_eq_sound (take (length (start a)) r) (start a) (ground arith) in
    (
      t,
      omega (
        arith,
        ap length (take-append-drop (length (start a)) r),
        length-append (take (length (start a)) r) (drop (length (start a)) r),
        ap length t,
        (==_iff (length (drop (length (start a)) r)) 32).0 (ground arith),
      ),
    )

append-cancel : (a b : Text) (c : ℕ) → a ++ c ∷ [] ≡ b ++ c ∷ [] → a ≡ b
append-cancel a b c h =
    sym (take-length-append a (c ∷ []))
    ∙ ap (take (length a)) h
    ∙ ap (λ n. take n (b ++ c ∷ [])) same
    ∙ take-length-append b (c ∷ [])
  where
    same : length a ≡ length b
    same = omega (arith, ap length h, length-append a (c ∷ []), length-append b (c ∷ []))

-- A reply subject belongs to one request subject at most.
pub is_reply_subject_for_unique :
    (r a b : Text) → is_reply_subject_for r a ≡ true → is_reply_subject_for r b ≡ true → a ≡ b
is_reply_subject_for_unique r a b h k =
    let (s, l) = starts-length r a h in
    let (t, m) = starts-length r b k in
    let same : length (start a) ≡ length (start b) = omega (arith, l, m) in
    append-cancel a b b'.' (ap (drop 7) (sym s ∙ ap (λ n. take n r) same ∙ t))

split-append : (sep : ℕ) (s t : Text) → split sep (s ++ sep ∷ t) ≡ split sep s ++ split sep t
unfolding split
split-append sep [] t = ground (arith, ==_iff sep sep)
split-append sep (c ∷ s) t = elim (Bool-cases (c == sep)) [
  | inl e ↦ rw e (ap (◌∷◌ []) (split-append sep s t))
  | inr e ↦
      rw e (ap (push_first c) (split-append sep s t) ∙ first_of (split sep s) (split-ne-nil sep s))
]
  where
    first_of :
        (ps : List Text)
        → ps ≢ []
        → push_first c (ps ++ split sep t) ≡ push_first c ps ++ split sep t
    first_of [] h = absurd (h refl)
    first_of (p ∷ ps) h = refl

split_whole : (id : Text) → all is_unique_id_char id ≡ true → split b'.' id ≡ id ∷ []
unfolding split
split_whole [] h = refl
split_whole (c ∷ id) h = elim (Bool-cases (c == b'.')) [
  | inl e ↦ absurd (ground (arith, ==_iff c 46))
  | inr e ↦ rw e (ap (push_first c) (split_whole id (ground arith)))
]

last-append : (ps : List Text) (p : Text) → last (ps ++ p ∷ []) ≡ p
last-append [] p = refl
last-append (a ∷ []) p = refl
last-append (a ∷ b ∷ ps) p = last-append (b ∷ ps) p

any-append : (p : Text → Bool) (xs ys : List Text) → any p (xs ++ ys) ≡ (any p xs || any p ys)
any-append p [] ys = refl
any-append p (x ∷ xs) ys = ground (arith, any-append p xs ys)

parts-derived_reply_subject :
    (a id : Text)
    → all is_unique_id_char id ≡ true
    → split b'.' (derived_reply_subject a id) ≡ reply_prefix ∷ (split b'.' a ++ id ∷ [])
parts-derived_reply_subject a id h =
    split-append b'.' reply_prefix (a ++ b'.' ∷ id)
    ∙ (unfold split in
        ap (◌∷◌ reply_prefix)
          (split-append b'.' a id ∙ ap (λ ps. split b'.' a ++ ps) (split_whole id h)))

two_parts : (s id : Text) → leb 3 (length (reply_prefix ∷ (split b'.' s ++ id ∷ []))) ≡ true
two_parts s id = counted (split b'.' s) (split-ne-nil b'.' s)
  where
    counted : (ps : List Text) → ps ≢ [] → leb 3 (length (reply_prefix ∷ (ps ++ id ∷ []))) ≡ true
    counted [] h = absurd (h refl)
    counted (p ∷ []) h = refl
    counted (p ∷ q ∷ ps) h = ground arith

unique_id-wildcard : (id : Text) → is_unique_id id ≡ true → text_eq wildcard id ≡ false
unfolding is_unique_id
unique_id-wildcard id h = elim (Bool-cases (text_eq wildcard id)) [
  | inr e ↦ e
  | inl e ↦ absurd (short (ap is_unique_id (text_eq_sound wildcard id e) ∙ h))
]
  where
    short : is_unique_id wildcard ≡ true → ⊥
    short k = ground (arith, k)

derived_reply_subject-valid :
    (a id : Text)
    → has_wildcard a ≡ false
    → is_unique_id id ≡ true
    → is_valid_reply_subject (derived_reply_subject a id) ≡ true
unfolding is_valid_reply_subject has_wildcard
derived_reply_subject-valid a id w h =
    let u : all is_unique_id_char id ≡ true = unfold is_unique_id in ground arith in
    let named : text_eq wildcard reply_prefix ≡ false = unfold text_eq in refl in
    rw (parts-derived_reply_subject a id u) (
      ground (
        arith,
        two_parts a id,
        text_eq_refl reply_prefix,
        last_part (split b'.' a) (split-ne-nil b'.' a),
        any-append (text_eq wildcard) (split b'.' a) (id ∷ []),
        unique_id-wildcard id h,
        w,
        h,
        named,
      ))
  where
    last_part :
        (ps : List Text) → ps ≢ [] → is_unique_id (last (reply_prefix ∷ (ps ++ id ∷ []))) ≡ true
    last_part [] e = absurd (e refl)
    last_part (p ∷ ps) e = ap is_unique_id (last-append (p ∷ ps) id) ∙ h

-- The reply subject that is derived from a request subject without a wild card and a unique id is
-- accepted as one of that request subject.
pub is_reply_subject_for-derived_reply_subject :
    (a id : Text)
    → has_wildcard a ≡ false
    → is_unique_id id ≡ true
    → is_reply_subject_for (derived_reply_subject a id) a ≡ true
unfolding is_reply_subject_for
is_reply_subject_for-derived_reply_subject a id w h =
    let whole : start a ++ id ≡ derived_reply_subject a id =
      ap (λ x. reply_prefix ++ b'.' ∷ x) (append_assoc a (b'.' ∷ []) id) in
    ground (
      arith,
      derived_reply_subject-valid a id w h,
      ap (λ s. text_eq (take (length (start a)) s) (start a)) (sym whole)
          ∙ ap (λ s. text_eq s (start a)) (take-length-append (start a) id)
          ∙ text_eq_refl (start a),
      ap (λ s. is_unique_id (drop (length (start a)) s)) (sym whole)
          ∙ ap is_unique_id (drop-length-append (start a) id)
          ∙ h,
    )
