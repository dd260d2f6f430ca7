-- ===== src/Review/Hosted/Threads/Placed.antt =====
-- review/hosted-review.ts `buildHostedWorklist`: where the threads of a pull request go.
use mathlib.Core.List.{Perm, perm_append_singleton, perm_middle}
use mathlib.Core.List.Perm
use ralph_autopilot.Common.{
  ◌≡◌, subst, sym, Bool, false, not, ◌&&◌, ◌||◌, Option, none, some, List, [], ◌∷◌, ◌++◌,
  append_assoc, append-nil, foldl, perm_swap, Text, if◌then◌else◌, arith, inl, inr, Bool-cases,
}
use ralph_autopilot.Review.Hosted.{
  Platform, ReviewThread, ReviewThreadComment, ReviewThreadAuthorType, HostedFinding,
  thread_author_type, normalize_comments, author_of_first,
}
use ralph_autopilot.Review.Hosted.Threads.{
  HostedWorklist, admit_thread, anchored_to_head, build_hosted_worklist, finding_of, has_no_comment,
  is_ralph, no_buckets, normalize_thread, put_bucket, put_finding, put_stale, worklist_step,
}

-- All that a worklist names.
abbrev pub all_findings : HostedWorklist → List HostedFinding
all_findings w =
    w.buckets.findings
    ++ (w.buckets.human_threads ++ (w.buckets.unknown_bot_threads ++ w.unresolved_stale))

-- The threads that can hold a merge: those that are not resolved, except Ralph's own on a diff that
-- is not outdated.
abbrev is_open_thread : ReviewThread → Bool
is_open_thread t =
    not (has_no_comment t.comments)
    && not t.is_resolved
    && (t.is_outdated || not (is_ralph (thread_author_type t)))

abbrev opt_list : Option HostedFinding → List HostedFinding
opt_list none = []
opt_list (some f) = f ∷ []

-- Their findings, in the order of the threads.
pub open_findings : Platform → List ReviewThread → List HostedFinding
unfolding normalize_thread
open_findings p [] = []
open_findings p (t ∷ ts) =
    let rest = open_findings p ts in
    if is_open_thread t then opt_list (normalize_thread p t) ++ rest else rest

pushed :
    (f : HostedFinding) (xs ys : List HostedFinding) → Perm ((xs ++ f ∷ []) ++ ys) (f ∷ (xs ++ ys))
pushed f xs ys =
    subst (λ l. Perm l (f ∷ (xs ++ ys))) (sym (append_assoc xs (f ∷ []) ys)) (perm_middle xs ys)

-- Past a list.
behind :
    (f : HostedFinding) (xs : List HostedFinding) {ys zs : List HostedFinding}
    → Perm ys (f ∷ zs)
    → Perm (xs ++ ys) (f ∷ (xs ++ zs))
behind f xs {zs} h = Perm.trans (Perm.append_left xs h) (perm_middle xs zs)

put_bucket-perm :
    (w : HostedWorklist) (type : ReviewThreadAuthorType) (f : HostedFinding)
    → is_ralph type ≡ false
    → Perm (all_findings (record w { buckets = put_bucket w.buckets type f })) (f ∷ all_findings w)
put_bucket-perm w ReviewThreadAuthorType.hosted_reviewer f h = pushed f w.buckets.findings _
put_bucket-perm w ReviewThreadAuthorType.human f h =
    behind f w.buckets.findings (pushed f w.buckets.human_threads _)
put_bucket-perm w ReviewThreadAuthorType.unknown_bot f h =
    behind f w.buckets.findings
      (behind f w.buckets.human_threads (pushed f w.buckets.unknown_bot_threads _))
put_bucket-perm w ReviewThreadAuthorType.ralph f h = cc

put_stale-perm :
    (w : HostedWorklist) (o : Option HostedFinding)
    → Perm (all_findings (put_stale w o)) (opt_list o ++ all_findings w)
put_stale-perm w none = Perm.refl _
put_stale-perm w (some f) = behind f w.buckets.findings (
    behind f w.buckets.human_threads
      (behind f w.buckets.unknown_bot_threads (perm_append_singleton f w.unresolved_stale)))

put_finding-perm :
    (p : Platform) (t : ReviewThread) (cs : List ReviewThreadComment) (w : HostedWorklist)
    → is_ralph (author_of_first cs) ≡ false
    → Perm
        (all_findings (put_finding w (finding_of p t cs)))
        (opt_list (finding_of p t cs) ++ all_findings w)
unfolding normalize_comments
put_finding-perm p t [] w h = Perm.refl _
put_finding-perm p t (c ∷ cs) w h = put_bucket-perm w _ (normalize_comments p t c cs) h

abbrev open_one : Platform → ReviewThread → List HostedFinding
open_one p t = if is_open_thread t then opt_list (normalize_thread p t) else []

worklist_step-perm :
    (p : Platform) (head : Option Text) (t : ReviewThread) (w : HostedWorklist)
    → Perm (all_findings (worklist_step p head w t)) (open_one p t ++ all_findings w)
unfolding worklist_step admit_thread normalize_thread
worklist_step-perm p head t w = elim (Bool-cases t.is_resolved) [
  | inl r ↦ elim (Bool-cases (has_no_comment t.comments)) [
    | inl e ↦ rw (r, e) (Perm.refl _)
    | inr e ↦ rw (r, e) (Perm.refl _)
  ]
  | inr r ↦ elim (Bool-cases (has_no_comment t.comments)) [
    | inl e ↦ rw (r, e) (Perm.refl _)
    | inr e ↦ elim (Bool-cases t.is_outdated) [
      | inl o ↦ rw (r, e, o) (put_stale-perm w (normalize_thread p t))
      | inr o ↦ elim (Bool-cases (is_ralph (thread_author_type t))) [
        | inl a ↦ rw (r, e, o, a) (Perm.refl _)
        | inr a ↦ elim (Bool-cases (anchored_to_head t head)) [
          | inl h ↦ rw (r, e, o, a, h) (put_finding-perm p t t.comments w a)
          | inr h ↦ rw (r, e, o, a, h) (put_stale-perm w (normalize_thread p t))
        ]
      ]
    ]
  ]
]

open_findings-step :
    (p : Platform) (t : ReviewThread) (ts : List ReviewThread)
    → open_findings p (t ∷ ts) ≡ open_one p t ++ open_findings p ts
unfolding open_findings
open_findings-step p t ts = ground arith

worklist-perm :
    (p : Platform) (head : Option Text) (ts : List ReviewThread) (w : HostedWorklist)
    → Perm (all_findings (foldl (worklist_step p head) w ts)) (open_findings p ts ++ all_findings w)
unfolding open_findings
worklist-perm p head [] w = Perm.refl _
worklist-perm p head (t ∷ ts) w =
    let ih = worklist-perm p head ts (worklist_step p head w t) in
    Perm.trans ih (
      rw (open_findings-step p t ts) (
        rw (append_assoc (open_one p t) (open_findings p ts) (all_findings w)) (
          Perm.trans (Perm.append_left (open_findings p ts) (worklist_step-perm p head t w))
            (perm_swap (open_findings p ts) (open_one p t) (all_findings w)))))

-- The four lists of a worklist hold each open thread of the pull request once, and nothing else: a
-- thread that is left out has no comment, is resolved, or is Ralph's own and not outdated.
pub build_hosted_worklist-perm :
    (p : Platform) (threads : List ReviewThread) (head : Option Text)
    → Perm (all_findings (build_hosted_worklist p threads head)) (open_findings p threads)
unfolding build_hosted_worklist
build_hosted_worklist-perm p threads head =
    subst (λ l. Perm (all_findings (build_hosted_worklist p threads head)) l)
      (append-nil (open_findings p threads))
      (worklist-perm p head threads (record { buckets = no_buckets; unresolved_stale = [] }))
