-- ===== src/App/ClipboardPump/Copies.antt =====
-- What is sent to the peer over the frames of a connection.
use no_cap_kvm.Prelude.{
  ℕ, ◌-◌, ◌≤◌, Bool, true, false, ◌&&◌, ◌||◌, Option, none, some, List, [], ◌∷◌, ◌++◌, ◌≡◌, refl,
  ap, ◌∙◌, ◌⊎◌, inl, inr, if_intro, Bool-cases, ltb, ltb-false, arith,
}
use no_cap_kvm.Discovery.Session.{ClipboardMessage}
use no_cap_kvm.App.ClipboardPump.{
  ContentType, text, jpeg, ClipboardContent, same_type, same_data, same_content, ClipboardState,
  ClipboardEnv, Effect, write, send, content_of, apply_and_track, take_pending, sending, seeing,
  look_at, poll, sync_clipboard,
}

-- The frames of a connection, one after the other.
unfoldable pub frames : List ClipboardEnv → ClipboardState → ClipboardState × List Effect
frames [] s = (s, [])
frames (env ∷ rest) s =
    let first = sync_clipboard env true s in
    let later = frames rest first.0 in (later.0, first.1 ++ later.1)

-- Those of the effects that reach the peer.
abbrev pub sent : List Effect → List Effect
sent [] = []
sent (write content ∷ es) = sent es
sent (send t bytes ∷ es) = send t bytes ∷ sent es

sent-append : (es fs : List Effect) → sent (es ++ fs) ≡ sent es ++ sent fs
sent-append [] fs = refl
sent-append (write content ∷ es) fs = sent-append es fs
sent-append (send t bytes ∷ es) fs = ap (λ r. send t bytes ∷ r) (sent-append es fs)

same_data_refl : (bytes : List ℕ) → same_data bytes bytes ≡ true
same_data_refl [] = refl
same_data_refl (b ∷ bs) = ground (arith, same_data_refl bs)

same_type_refl : (t : ContentType) → same_type t t ≡ true
same_type_refl text = refl
same_type_refl jpeg = refl

same_content_refl : (a : ClipboardContent) → same_content a a ≡ true
unfolding same_content
same_content_refl a = rw (same_type_refl a.type, same_data_refl a.bytes) refl

abbrev pub seen : ClipboardState → ClipboardContent → Bool
seen s a = s.last_seen_valid && same_content a s.last_seen

abbrev pub applied : ClipboardState → ClipboardContent → Bool
applied s a = s.last_applied_valid && same_content a s.last_applied

-- This machine has seen the content, or has it from the peer.
record Holds (a : ClipboardContent) (s : ClipboardState) : Type 0 where
  held : (seen s a || applied s a) ≡ true

-- No message, and the content still held.
record IsQuiet (a : ClipboardContent) (r : ClipboardState × List Effect) : Type 0 where
  holds : Holds a r.0
  silent : sent r.1 ≡ []

Holds-seeing : (a : ClipboardContent) (s : ClipboardState) → Holds a (seeing s a)
Holds-seeing a s = record { held = rw (same_content_refl a) refl }

abbrev pub OnlyReads : ClipboardContent → Option ClipboardContent → Type 0
OnlyReads a got = (got ≡ none) ⊎ (got ≡ some a)

look_at-IsQuiet :
    (a : ClipboardContent) (s : ClipboardState) (got : Option ClipboardContent)
    → Holds a s
    → OnlyReads a got
    → IsQuiet a (look_at s got)
unfolding look_at
look_at-IsQuiet a s got h (inl e) = rw e (record { holds = h; silent = refl })
look_at-IsQuiet a s got h (inr e) =
    let stays : IsQuiet a (s, []) = record { holds = h; silent = refl } in
    let marked : IsQuiet a (seeing s a, []) = record { holds = Holds-seeing a s; silent = refl } in
    elim (Bool-cases (seen s a)) [
      | inl was_seen ↦ rw (e, look_at, was_seen) stays
      | inr unseen ↦
          let was_applied : applied s a ≡ true = rw unseen at h.held in
          rw (e, look_at, unseen, was_applied) marked
    ]

poll-IsQuiet :
    (a : ClipboardContent) (env : ClipboardEnv) (s : ClipboardState)
    → Holds a s
    → OnlyReads a env.read
    → IsQuiet a (poll env s)
unfolding poll
poll-IsQuiet a env s h only =
    let checked = record s { last_check = env.now } in
    let still : Holds a checked = record { held = h.held } in
    let early : IsQuiet a (s, []) = record { holds = h; silent = refl } in
    let unchanged : IsQuiet a (checked, []) = record { holds = still; silent = refl } in
    if_intro (IsQuiet a) (ltb (env.now - s.last_check) env.poll_interval) early
      (if_intro (IsQuiet a) env.changed (look_at-IsQuiet a checked env.read still only) unchanged)

-- What this machine holds from the peer after the frame has taken what was pending.
abbrev pub applied_by : ClipboardContent → Option ClipboardMessage → ClipboardContent
applied_by a none = a
applied_by a (some msg) = content_of msg

take_pending-IsQuiet :
    (a : ClipboardContent) (s : ClipboardState) (pending : Option ClipboardMessage)
    → Holds a s
    → IsQuiet (applied_by a pending) (take_pending s pending)
unfolding take_pending apply_and_track
take_pending-IsQuiet a s none h = record { holds = h; silent = refl }
take_pending-IsQuiet a s (some msg) h = record {
  holds = record { held = rw (same_content_refl (content_of msg)) refl };
  silent = refl;
}

-- The clipboard is only ever found to hold what the peer sent last, and before that, `a`.
abbrev pub Echoes : ClipboardContent → List ClipboardEnv → Type 0
Echoes a [] = Unit {0}
Echoes a (env ∷ rest) =
    OnlyReads (applied_by a env.pending) env.read × Echoes (applied_by a env.pending) rest

sync_clipboard-IsQuiet :
    (a : ClipboardContent) (env : ClipboardEnv) (s : ClipboardState)
    → Holds (applied_by a env.pending) (take_pending s env.pending).0
    → sent (take_pending s env.pending).1 ≡ []
    → OnlyReads (applied_by a env.pending) env.read
    → IsQuiet (applied_by a env.pending) (sync_clipboard env true s)
unfolding sync_clipboard
sync_clipboard-IsQuiet a env s h quiet only =
    let taken = take_pending s env.pending in
    let polled = poll-IsQuiet (applied_by a env.pending) env taken.0 h only in
    record {
      holds = polled.holds;
      silent = sent-append taken.1 (poll env taken.0).1 ∙ rw (quiet, polled.silent) refl;
    }

frames-silent :
    (a : ClipboardContent) (es : List ClipboardEnv) (s : ClipboardState)
    → Holds a s
    → Echoes a es
    → sent (frames es s).1 ≡ []
unfolding frames
frames-silent a [] s h echoes = refl
frames-silent a (env ∷ rest) s h echoes =
    let taken = take_pending-IsQuiet a s env.pending h in
    let first = sync_clipboard-IsQuiet a env s taken.holds taken.silent echoes.0 in
    let next = (sync_clipboard env true s).0 in
    sent-append (sync_clipboard env true s).1 (frames rest next).1
    ∙ rw (first.silent, frames-silent (applied_by a env.pending) rest next first.holds echoes.1)
        refl

-- What the peer sent is never sent back: from any state, when a frame takes a message of the peer,
-- and from then on the clipboard is only found empty or holding what the peer sent last, nothing is
-- sent, however many further messages come in between.
pub no_echo :
    (env : ClipboardEnv) (rest : List ClipboardEnv) (s : ClipboardState) (msg : ClipboardMessage)
    → env.pending ≡ some msg
    → OnlyReads (content_of msg) env.read
    → Echoes (content_of msg) rest
    → sent (frames (env ∷ rest) s).1 ≡ []
unfolding frames sync_clipboard take_pending apply_and_track poll
no_echo env rest s msg e only echoes =
    let a = content_of msg in
    let holds : Holds a (apply_and_track s a).0 = record { held = rw (same_content_refl a) refl } in
    let first : IsQuiet a (sync_clipboard env true s) =
      rw (sync_clipboard, e)
        (let polled = poll-IsQuiet a env (apply_and_track s a).0 holds only in
          record { holds = polled.holds; silent = polled.silent }) in
    let next = (sync_clipboard env true s).0 in
    sent-append (sync_clipboard env true s).1 (frames rest next).1
    ∙ rw (first.silent, frames-silent a rest next first.holds echoes) refl

-- A frame in which the poll finds this content.
pub record Finds (env : ClipboardEnv) (s : ClipboardState) (a : ClipboardContent) : Type 0 where
  pub none_pending : env.pending ≡ none
  pub due : env.poll_interval ≤ env.now - s.last_check
  pub changed : env.changed ≡ true
  pub read : env.read ≡ some a

sync_clipboard-Finds :
    (env : ClipboardEnv) (s : ClipboardState) (a : ClipboardContent)
    → Finds env s a
    → sync_clipboard env true s ≡ look_at (record s { last_check = env.now }) (some a)
unfolding sync_clipboard take_pending poll
sync_clipboard-Finds env s a f =
    rw
      (
        f.none_pending,
        ltb-false (env.now - s.last_check) env.poll_interval f.due,
        f.changed,
        f.read,
      )
      refl

or_true : (x y : Bool) → y ≡ true → (x || y) ≡ true
or_true true y h = refl
or_true false y h = h

neither : (x y : Bool) → (x || y) ≡ false → (x ≡ false) × (y ≡ false)
neither true y h = cc
neither false y h = (refl, h)

held_by_applied :
    (a : ClipboardContent) (s : ClipboardState)
    → s.last_applied_valid ≡ true
    → s.last_applied ≡ a
    → Holds a s
held_by_applied a s valid last =
    let test : applied s a ≡ true = rw (valid, last, same_content_refl a) refl in
    record { held = or_true (seen s a) (applied s a) test }

look_at-new :
    (s : ClipboardState) (a : ClipboardContent)
    → (seen s a || applied s a) ≡ false
    → look_at s (some a) ≡ (seeing s a, sending a ∷ [])
unfolding look_at
look_at-new s a h =
    let (unseen, unapplied) = neither (seen s a) (applied s a) h in rw (unseen, unapplied) refl

-- What came from the peer cannot be copied back to it: after content `a` of the peer and a copy of
-- other content `b`, which is sent, a new copy of `a` on this machine is not sent, although the peer
-- now has `b`.
pub copy_back_lost :
    (first second : ClipboardEnv) (s : ClipboardState) (a b : ClipboardContent)
    → s.last_applied_valid ≡ true
    → s.last_applied ≡ a
    → Finds first s b
    → (seen s b || applied s b) ≡ false
    → Finds second (record s { last_check = first.now }) a
    → sent (frames (first ∷ second ∷ []) s).1 ≡ sending b ∷ []
unfolding frames
copy_back_lost first second s a b valid last finds fresh again =
    let checked = record s { last_check = first.now } in
    let one = sync_clipboard-Finds first s b finds ∙ look_at-new checked b fresh in
    let finds_again : Finds second (seeing checked b) a = record {
      none_pending = again.none_pending;
      due = again.due;
      changed = again.changed;
      read = again.read;
    } in
    let two = sync_clipboard-Finds second (seeing checked b) a finds_again in
    let quiet =
      look_at-IsQuiet a (record (seeing checked b) { last_check = second.now }) (some a)
        (held_by_applied a (record (seeing checked b) { last_check = second.now }) valid last)
        (inr refl) in
    rw (one, two, sent-append, quiet.silent) refl
