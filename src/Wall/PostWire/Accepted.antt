-- ===== src/Wall/PostWire/Accepted.antt =====
-- What a peer accepts as a post is well formed.
use filenymous.Prelude.{
  ℕ, suc, ◌+◌, ◌≤◌, ◌≡◌, refl, Bool, true, false, ◌==◌, ==_iff, Option, none, some, List, [], ◌∷◌,
  leb, leb→le, arith, Text, codes, text_eq, text_eq_iff, length, All,
}
use filenymous.Prelude.Json.{
  Json, undefined, null, boolean, number, string, array, object, Fields, find, as_string, as_object,
  or_else, max_safe_integer, end,
}
use filenymous.Prelude.Items.{
  as_array, entries, is_true, text_of, text_of-Each, optional, optional-Each, all_of, all_of-All,
  Each-text, Each-fits, Each-int, Each-then,
}
use filenymous.Prelude.Options.{Each, Each-bind, Each-guard, Each-map}
use filenymous.JsMap
use filenymous.JsMap.{JsMap}
use filenymous.Wall.Collab.{is_label}
use filenymous.Wall.Model.{ItemMeta}
use filenymous.Wall.Feed.{
  PostKind, msg, file, note, poll, Poll, SystemNotice, Caption, Post, max_reaction_kinds,
}
use filenymous.Wall.FeedWire.{max_msg_chars, clean_message, is_post_id, make_poll}
use filenymous.Wall.FeedWire.Accepted.{IsShown, clean_message-IsShown, IsPoll, make_poll-IsPoll}
use filenymous.Wall.PostWire.{
  labels, reactions_from, clean_reactions, kind_named, reply_of, mentions_of, is_msg, notice_of,
  en_of, caption_of, full_text, message_of, with_votes, poll_of, is_text_item, same, item_of,
  Content, content_of, said_in, asked_in, shared_in, post_of, clean_post,
}

abbrev pub IsLabels : ℕ → List Text → Type 0
IsLabels max ls = All (λ l. is_label l ≡ true) ls × (length ls ≤ max)

pub labels-IsLabels : (max : ℕ) (v : Json) → Each (IsLabels max) (labels max v)
unfolding labels
labels-IsLabels max v = Each-bind (IsLabels max) (as_array v) _ λ vs _.
    Each-guard (IsLabels max) (leb (length vs) max) _ λ few.
      Each-map (λ ls h. (h.0, omega (arith, h.1, leb→le (length vs) max few)))
        (all_of (text_of is_label) vs)
        (all_of-All (λ l. is_label l ≡ true) (text_of is_label) (text_of-Each is_label) vs)

module _ (is_emoji : Text → Bool) where
  abbrev pub IsReaction : Text × List Text → Type 0
  IsReaction e = (is_emoji e.0 ≡ true) × IsLabels 64 e.1

  abbrev pub IsReactions : ℕ → JsMap (List Text) → Type 0
  IsReactions max m = All IsReaction m × (length m ≤ max)

  reactions_from-IsReactions :
      (vs : List (Text × Json)) (n : ℕ) (out : JsMap (List Text))
      → IsReactions n out
      → Each (IsReactions (n + length vs)) (reactions_from is_emoji vs out)
  unfolding reactions_from
  reactions_from-IsReactions [] n out h = (h.0, omega (arith, h.1))
  reactions_from-IsReactions ((emoji, v) ∷ vs) n out h =
      let Good : JsMap (List Text) → Type 0 = IsReactions (n + length ((emoji, v) ∷ vs)) in
      Each-guard Good (is_emoji emoji) _ λ e.
        Each-then Good (IsLabels 64) (labels 64 v) _ (labels-IsLabels 64 v) λ who l.
          Each-map (λ m k. (k.0, omega (arith, k.1)))
            (reactions_from is_emoji vs (JsMap.set emoji who out))
            (reactions_from-IsReactions vs (suc n) (JsMap.set emoji who out) (
              JsMap.All-set IsReaction emoji who out (e, l) h.0,
              ground (arith, JsMap.size-set emoji who out, h.1),
            ))

  pub clean_reactions-IsReactions :
      (v : Json) → Each (IsReactions max_reaction_kinds) (clean_reactions is_emoji v)
  unfolding clean_reactions
  clean_reactions-IsReactions (object fs) =
      Each-guard (IsReactions max_reaction_kinds) (leb (length (entries fs)) max_reaction_kinds) _
        λ few.
          Each-map
            (λ m k. (k.0, omega (arith, k.1, leb→le (length (entries fs)) max_reaction_kinds few)))
            (reactions_from is_emoji (entries fs) [])
            (reactions_from-IsReactions (entries fs) 0 [] (tt, omega arith))
  clean_reactions-IsReactions undefined = tt
  clean_reactions-IsReactions null = tt
  clean_reactions-IsReactions (boolean b) = tt
  clean_reactions-IsReactions (number n) = tt
  clean_reactions-IsReactions (string s) = tt
  clean_reactions-IsReactions (array vs) = tt

abbrev pub IsNotice : PostKind → Text → Type 0
IsNotice kind by = (is_msg kind ≡ true) × (text_eq by (codes "host") ≡ true)

notice_of-IsNotice :
    (kind : PostKind) (by : Text) (v : Json) → Each (λ s. IsNotice kind by) (notice_of kind by v)
unfolding notice_of
notice_of-IsNotice kind by v =
    let Good : SystemNotice → Type 0 = λ s. IsNotice kind by in
    Each-bind Good (as_string v) _ λ name _.
      Each-guard Good (text_eq name (codes "exported")) _ λ _.
        Each-guard Good (is_msg kind) _
          λ m. Each-guard Good (text_eq by (codes "host")) _ λ h. (m, h)

abbrev pub IsCaption : PostKind → Caption → Type 0
IsCaption kind c = (is_msg kind ≡ true) × (length c.sid ≤ 40)

caption_of-IsCaption : (kind : PostKind) (v : Json) → Each (IsCaption kind) (caption_of kind v)
unfolding caption_of
caption_of-IsCaption kind v =
    let Good : Caption → Type 0 = IsCaption kind in
    Each-guard Good (is_msg kind) _ λ m. Each-bind Good (as_object v) _ λ c _.
      Each-fits Good 40 (find _ c) _ λ sid h. Each-bind Good (en_of (find _ c)) _ λ en _. (m, h)

-- A text of a message: it is shown, and there is something in it.
abbrev pub IsMessageText : Text → Type 0
IsMessageText s = (1 ≤ length s) × IsShown s

full_text-IsMessageText : (s : Text) → IsShown s → Each IsMessageText (full_text s)
unfolding full_text
full_text-IsMessageText [] h = tt
full_text-IsMessageText (c ∷ s) h = (omega arith, h)

message_of-IsMessageText : (v : Json) → Each IsMessageText (message_of v)
unfolding message_of
message_of-IsMessageText v =
    Each-fits IsMessageText (max_msg_chars + 16) v _
      λ s _. full_text-IsMessageText (clean_message (string s)) (clean_message-IsShown (string s))

-- A poll with its votes: a row of labels for each option.
pub record IsBallot (lower : Text → Text) (p : Poll) : Type 0 where
  pub made : IsPoll lower p
  pub rows : length p.votes ≡ length p.options
  pub cast : All (IsLabels 64) p.votes

with_votes-IsBallot :
    (lower : Text → Text) (votes : List (List Text)) (closed : Bool) (p : Poll)
    → IsPoll lower p
    → length votes ≡ length p.options
    → All (IsLabels 64) votes
    → IsBallot lower (with_votes votes closed p)
unfolding with_votes
with_votes-IsBallot lower votes closed p h r c = record {
  made = record {
    asked = h.asked;
    offered = h.offered;
    enough = h.enough;
    few = h.few;
    apart = h.apart;
  };
  rows = r;
  cast = c;
}

poll_of-IsBallot : (lower : Text → Text) (q : Fields) → Each (IsBallot lower) (poll_of lower q)
unfolding poll_of
poll_of-IsBallot lower q =
    let Good : Poll → Type 0 = IsBallot lower in
    Each-then Good (IsPoll lower) (make_poll lower _ _) _ (make_poll-IsPoll lower _ _) λ p made.
      Each-bind Good (as_array (find _ q)) _ λ given _.
        Each-guard Good (length given == length p.options) _ λ rows.
          Each-then Good
            (λ (ls : List (List Text)). All (IsLabels 64) ls × (length ls ≡ length given))
            (all_of (labels 64) given) _
            (all_of-All (IsLabels 64) (labels 64) (labels-IsLabels 64) given)
            λ votes h.
              with_votes-IsBallot lower votes (is_true (find (codes "closed") q)) p made
                (omega (arith, h.1, (==_iff (length given) (length p.options)).0 rows)) h.0

-- The item of a post: it has the id of the post, and is a text when the post is a masked note.
abbrev pub IsItemOf : Bool → Text → ItemMeta → Type 0
IsItemOf masked id item = (item.id ≡ id) × (is_text_item item.kind ≡ masked)

same_lem : (a b : Bool) → same a b ≡ true → b ≡ a
unfolding same
same_lem true true h = refl
same_lem true false h = ground arith
same_lem false true h = ground arith
same_lem false false h = refl

module _ (IsItem : ItemMeta → Type 0) (clean_item : Json → Option ItemMeta)
    (cleaned : (v : Json) → Each IsItem (clean_item v)) where
  item_of-IsItemOf :
      (masked : Bool) (id : Text) (v : Json)
      → Each (λ i. IsItem i × IsItemOf masked id i) (item_of clean_item masked id v)
  unfolding item_of
  item_of-IsItemOf masked id v =
      let Good : ItemMeta → Type 0 = λ i. IsItem i × IsItemOf masked id i in
      Each-then Good IsItem (clean_item v) _ (cleaned v) λ i c.
        Each-guard Good (text_eq i.id id) _ λ e.
          Each-guard Good (same masked (is_text_item i.kind)) _
            λ s. (c, ((text_eq_iff i.id id).0 e, same_lem masked (is_text_item i.kind) s))

pub is_note : PostKind → Bool
is_note note = true
is_note _ = false

-- What a post of the kind holds: a text, a poll or an item, and only that.
pub carries : PostKind → Option Text → Option Poll → Option ItemMeta → Bool
carries msg (some s) none none = true
carries poll none (some p) none = true
carries file none none (some i) = true
carries note none none (some i) = true
carries _ _ _ _ = false

module _ (is_emoji : Text → Bool) (lower : Text → Text) (IsItem : ItemMeta → Type 0) where
  pub record IsPost (p : Post) : Type 0 where
    pub named : is_post_id p.id ≡ true
    pub labelled : is_label p.by ≡ true
    pub dated : p.at ≤ max_safe_integer
    pub replied : Each (λ r. is_post_id r ≡ true) p.reply_to
    pub mentioned : Each (IsLabels 16) p.mentions
    pub reacted : IsReactions is_emoji max_reaction_kinds p.reactions
    pub notified : Each (λ s. IsNotice p.kind p.by) p.system
    pub captioned : Each (IsCaption p.kind) p.caption
    pub worded : Each IsMessageText p.text
    pub polled : Each (IsBallot lower) p.poll
    pub attached : Each (λ i. IsItem i × IsItemOf (is_note p.kind) p.id i) p.item
    pub held : carries p.kind p.text p.poll p.item ≡ true

  record IsContent (kind : PostKind) (id : Text) (c : Content) : Type 0 where
    worded : Each IsMessageText (said_in c)
    polled : Each (IsBallot lower) (asked_in c)
    attached : Each (λ i. IsItem i × IsItemOf (is_note kind) id i) (shared_in c)
    held : carries kind (said_in c) (asked_in c) (shared_in c) ≡ true

  module _ (clean_item : Json → Option ItemMeta)
      (cleaned : (v : Json) → Each IsItem (clean_item v)) where
    content_of-IsContent :
        (kind : PostKind) (id : Text) (fs : Fields)
        → Each (IsContent kind id) (content_of lower clean_item kind id fs)
    unfolding content_of said_in asked_in shared_in carries is_note
    content_of-IsContent msg id fs =
        Each-then (IsContent msg id) IsMessageText (message_of (find _ fs)) _
          (message_of-IsMessageText (find _ fs))
          λ s h. record { worded = h; polled = tt; attached = tt; held = refl }
    content_of-IsContent poll id fs = Each-bind (IsContent poll id) (as_object (find _ fs)) _ λ q _.
        Each-then (IsContent poll id) (IsBallot lower) (poll_of lower q) _
          (poll_of-IsBallot lower q)
          λ p h. record { worded = tt; polled = h; attached = tt; held = refl }
    content_of-IsContent note id fs =
        Each-then (IsContent note id) (λ i. IsItem i × IsItemOf true id i)
          (item_of clean_item true id (find _ fs)) _
          (item_of-IsItemOf IsItem clean_item cleaned true id (find _ fs))
          λ i h. record { worded = tt; polled = tt; attached = h; held = refl }
    content_of-IsContent file id fs =
        Each-then (IsContent file id) (λ i. IsItem i × IsItemOf false id i)
          (item_of clean_item false id (find _ fs)) _
          (item_of-IsItemOf IsItem clean_item cleaned false id (find _ fs))
          λ i h. record { worded = tt; polled = tt; attached = h; held = refl }

    post_of-IsPost : (fs : Fields) → Each IsPost (post_of is_emoji lower clean_item fs)
    unfolding post_of reply_of mentions_of
    post_of-IsPost fs = Each-text IsPost is_post_id (find _ fs) _ λ id named.
        Each-text IsPost is_label (find _ fs) _ λ by labelled.
          Each-int IsPost 0 (find _ fs) _ λ at _ dated.
            Each-bind IsPost (as_string (find _ fs)) _ λ word _.
              Each-bind IsPost (kind_named word) _ λ kind _.
                Each-then IsPost (IsReactions is_emoji max_reaction_kinds)
                  (clean_reactions is_emoji (or_else (find _ fs) (object end))) _
                  (clean_reactions-IsReactions is_emoji (or_else (find _ fs) (object end)))
                  λ r reacted.
                    Each-then IsPost (Each (λ i. is_post_id i ≡ true))
                      (optional (text_of is_post_id) (find _ fs)) _
                      (optional-Each (λ i. is_post_id i ≡ true) (text_of is_post_id)
                        (text_of-Each is_post_id) (find _ fs))
                      λ reply_to replied.
                        Each-then IsPost (Each (IsLabels 16)) (optional (labels 16) (find _ fs)) _
                          (optional-Each (IsLabels 16) (labels 16) (labels-IsLabels 16) (find _ fs))
                          λ mentions mentioned.
                            Each-then IsPost (Each (λ s. IsNotice kind by))
                              (optional (notice_of kind by) (find _ fs)) _
                              (optional-Each (λ s. IsNotice kind by) (notice_of kind by)
                                (notice_of-IsNotice kind by) (find _ fs))
                              λ system notified.
                                Each-then IsPost (Each (IsCaption kind))
                                  (optional (caption_of kind) (find _ fs)) _
                                  (optional-Each (IsCaption kind) (caption_of kind)
                                    (caption_of-IsCaption kind) (find _ fs))
                                  λ caption captioned.
                                    Each-then IsPost (IsContent kind id)
                                      (content_of lower clean_item kind id fs) _
                                      (content_of-IsContent kind id fs)
                                      λ content c. record {
                                        named = named;
                                        labelled = labelled;
                                        dated = dated;
                                        replied = replied;
                                        mentioned = mentioned;
                                        reacted = reacted;
                                        notified = notified;
                                        captioned = captioned;
                                        worded = c.worded;
                                        polled = c.polled;
                                        attached = c.attached;
                                        held = c.held;
                                      }

    pub clean_post-IsPost : (v : Json) → Each IsPost (clean_post is_emoji lower clean_item v)
    unfolding clean_post
    clean_post-IsPost v = Each-bind IsPost (as_object v) _ λ fs _. post_of-IsPost fs
