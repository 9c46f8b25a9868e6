-- ===== src/Assistant/Tools/Cited.antt =====
-- backend/src/assistant/tools.rs: what the model may name, and what it may propose, was shown before.
use rav.Common.{
  ◌⊎◌, ◌≡◌, refl, sym, ap, subst, ◌∙◌, inl, inr, true, false, some, List, [], ◌∷◌, Bool-cases, Text,
  text_eq, text_eq_iff, ok, ok_or-ok, All, All-mem, All-of_mem, Memᴰ, mem-append, mem-of_append,
  All-map, any-mem, mem-of_cons, any,
}
use rav.Assistant.{MessageLoc, SourceRef, ActionMessage, AssistantEvent}
use rav.Common.Maps.{get}
use rav.Assistant.Refs.{
  IsBijective, empty-IsBijective, mint, resolve, resolve-mint, resolve-kept, resolve-minted,
  mint-IsBijective,
}
use rav.Assistant.Tools.{
  ShownMail, show_each, ToolContext, new_context, cite, with_source, source_of, resolve_ref,
}

abbrev pub loc_of : SourceRef → MessageLoc
loc_of s = record { folder = s.folder; uid = s.uid }

-- A message is among the sources.
abbrev pub IsShown : List SourceRef → MessageLoc → Type 0
IsShown sources loc = (s : SourceRef) × Memᴰ s sources × (loc_of s ≡ loc)

abbrev pub message_loc : ActionMessage → MessageLoc
message_loc m = record { folder = m.folder; uid = m.uid }

-- A proposal is about messages among the sources: a draft under the reference of its source.
abbrev pub IsBacked : List SourceRef → AssistantEvent → Type 0
IsBacked sources (AssistantEvent.draft d) =
    (s : SourceRef) × Memᴰ s sources
    × (s.msg_ref ≡ d.msg_ref)
    × (s.folder ≡ d.folder)
    × (s.uid ≡ d.uid)
IsBacked sources (AssistantEvent.action p) = All (λ m. IsShown sources (message_loc m)) p.messages
IsBacked sources (AssistantEvent.status t) = true ≡ false
IsBacked sources (AssistantEvent.text t) = true ≡ false
IsBacked sources (AssistantEvent.sources s) = true ≡ false
IsBacked sources (AssistantEvent.error t r) = true ≡ false
IsBacked sources (AssistantEvent.done i o) = true ≡ false

pub record IsCited (ctx : ToolContext) : Type 0 where
  pub bijective : IsBijective ctx.refs
  pub shown : (s : SourceRef) → Memᴰ s ctx.sources → resolve ctx.refs s.msg_ref ≡ some (loc_of s)
  pub known :
      (r : Text) (loc : MessageLoc)
      → resolve ctx.refs r ≡ some loc
      → (s : SourceRef) × Memᴰ s ctx.sources × (s.msg_ref ≡ r)
  pub backed : All (IsBacked ctx.sources) ctx.proposals

pub new-IsCited : IsCited new_context
unfolding resolve get
new-IsCited = record {
  bijective = empty-IsBijective;
  shown = λ s m. elim m [ ];
  known = λ r loc e. cc;
  backed = tt;
}

-- More sources back at least as much.
IsBacked-mono :
    (old new : List SourceRef)
    → ((s : SourceRef) → Memᴰ s old → Memᴰ s new)
    → (e : AssistantEvent) → IsBacked old e
    → IsBacked new e
IsBacked-mono old new more (AssistantEvent.draft d) (s, m, r, f, u) = (s, more s m, r, f, u)
IsBacked-mono old new more (AssistantEvent.action p) h =
    All-of_mem _ p.messages
      (λ m at. let (s, k, e) = All-mem _ p.messages m h at in (s, more s k, e))
IsBacked-mono old new more (AssistantEvent.status t) h = h
IsBacked-mono old new more (AssistantEvent.text t) h = h
IsBacked-mono old new more (AssistantEvent.sources s) h = h
IsBacked-mono old new more (AssistantEvent.error t r) h = h
IsBacked-mono old new more (AssistantEvent.done i o) h = h

with_source-kept :
    (new s : SourceRef) (sources : List SourceRef)
    → Memᴰ s sources
    → Memᴰ s (with_source new sources)
unfolding with_source
with_source-kept new s sources m =
    elim (Bool-cases (any (λ x. text_eq x.msg_ref new.msg_ref) sources)) [
      | inl e ↦ rw e m
      | inr e ↦ rw e (mem-append s sources (new ∷ []) (inl m))
    ]

with_source-has :
    (new : SourceRef) (sources : List SourceRef)
    → (s : SourceRef) × Memᴰ s (with_source new sources) × (s.msg_ref ≡ new.msg_ref)
unfolding with_source
with_source-has new sources = elim (Bool-cases (any (λ x. text_eq x.msg_ref new.msg_ref) sources)) [
  | inl e ↦
      let (s, m, same) = any-mem (λ x. text_eq x.msg_ref new.msg_ref) sources e in
      rw e (s, m, (text_eq_iff s.msg_ref new.msg_ref).0 same)
  | inr e ↦ rw e (new, mem-append new sources (new ∷ []) (inr (Memᴰ.head refl)), refl)
]

with_source-only :
    (new s : SourceRef) (sources : List SourceRef)
    → Memᴰ s (with_source new sources)
    → Memᴰ s sources ⊎ (s ≡ new)
unfolding with_source
with_source-only new s sources m =
    elim (Bool-cases (any (λ x. text_eq x.msg_ref new.msg_ref) sources)) [
      | inl e ↦ inl (rw e at m)
      | inr e ↦ elim (mem-of_append s sources (new ∷ []) (rw e at m)) [
        | inl k ↦ inl k
        | inr k ↦ elim (mem-of_cons k) [ inl same ↦ inr same | inr none_left ↦ elim none_left [ ] ]
      ]
    ]

pub cite-IsCited :
    (loc : MessageLoc) (subject from date : Text) (ctx : ToolContext)
    → IsCited ctx
    → IsCited (cite loc subject from date ctx).1
unfolding cite
cite-IsCited loc subject from date ctx w =
    let r = (mint loc ctx.refs).0 in
    let new = source_of r loc subject from date in
    record {
      bijective = mint-IsBijective loc ctx.refs w.bijective;
      shown = λ s m. elim (with_source-only new s ctx.sources m) [
        | inl old ↦ resolve-kept loc ctx.refs s.msg_ref (loc_of s) w.bijective (w.shown s old)
        | inr same ↦
            subst (λ x. resolve (mint loc ctx.refs).1 x.msg_ref ≡ some (loc_of x)) (sym same)
              (resolve-minted loc ctx.refs w.bijective)
      ];
      known = λ q l e. elim (Bool-cases (text_eq r q)) [
        | inl same ↦
            let (s, m, named) = with_source-has new ctx.sources in
            (s, m, named ∙ (text_eq_iff r q).0 same)
        | inr other ↦
            let split = resolve-mint loc ctx.refs q w.bijective in
            let (s, m, named) = w.known q l (sym (rw other at split) ∙ e) in
            (s, with_source-kept new s ctx.sources m, named)
      ];
      backed =
          All-map (IsBacked ctx.sources) (IsBacked (with_source new ctx.sources)) ctx.proposals
            (IsBacked-mono ctx.sources (with_source new ctx.sources)
              (λ s. with_source-kept new s ctx.sources))
            w.backed;
    }

pub show_each-IsCited :
    {A : Type 0} (show : A → ToolContext → ShownMail × ToolContext)
    → ((a : A) (ctx : ToolContext) → IsCited ctx → IsCited (show a ctx).1)
    → (xs : List A) (ctx : ToolContext) → IsCited ctx
    → IsCited (show_each show xs ctx).1
unfolding show_each
show_each-IsCited show h [] ctx w = w
show_each-IsCited show h (x ∷ xs) ctx w = show_each-IsCited show h xs _ (h x ctx w)

some-injective : (a b : MessageLoc) → some a ≡ some b → a ≡ b
some-injective a b h = cc

-- What a known reference stands for is among the sources, under this reference.
pub resolve_ref-IsShown :
    (ctx : ToolContext) (r : Text) (loc : MessageLoc)
    → IsCited ctx
    → resolve_ref ctx r ≡ ok loc
    → (s : SourceRef) × Memᴰ s ctx.sources × (s.msg_ref ≡ r) × (loc_of s ≡ loc)
unfolding resolve_ref
resolve_ref-IsShown ctx r loc w h =
    let e = ok_or-ok _ _ loc h in
    let (s, m, named) = w.known r loc e in
    (s, m, named, some-injective _ loc (sym (w.shown s m) ∙ ap (resolve ctx.refs) named ∙ e))
