-- ===== src/Spans/Builder/Open.antt =====
-- internal/spans/builder.go: which spans the builder holds open.
use tracearr.Prelude.{
  ◌≡◌, refl, Bool, false, not, ◌&&◌, ◌||◌, String, List, [], ◌∷◌, arith, Bool-cases, Option-cases,
  inl, inr, nat_beq, nat_eq, is_some, if◌then◌else◌, ◌∙◌, ap,
}
use tracearr.Prelude.Clock.{Time}
use tracearr.Prelude.Map
use tracearr.Prelude.Map.{get-insert, get-delete}
use tracearr.Store.{SpanId}
use tracearr.Spans.Schema.{Attr}
use tracearr.Engine.Calls.{Context, Call, Link}
use tracearr.Engine.OpenSpans.{is_open}
use tracearr.Spans.Builder.{
  SpanContext, Span, recording, Operation, OtelBuilder, is_valid, span_context, perform, keep_open,
  open_root, open_child, end_span, find_span, close_span, synthetic_span, add_span_event, serve,
  serve_all, otel_builder,
}

module _ (tracer : List Operation → SpanContext) where
  -- The root `id` was opened by the calls, newest first, and not closed by its id since.
  unfoldable pub is_open_root : List Call → SpanId → Bool
  is_open_root [] id = false
  is_open_root (Call.open_root ctx name kind at attrs links ∷ cs) id =
      nat_beq ((otel_builder tracer).child (Call.open_root ctx name kind at attrs links ∷ cs)) id
      || is_open_root cs id
  is_open_root (Call.open_child ctx name kind at attrs ∷ cs) id = is_open_root cs id
  is_open_root (Call.close_span ctx i at good reason attrs ∷ cs) id =
      not (nat_beq i id) && is_open_root cs id
  is_open_root (Call.synthetic_span ctx name kind at end attrs ∷ cs) id = is_open_root cs id
  is_open_root (Call.add_span_event ctx i name at attrs ∷ cs) id = is_open_root cs id

  end_span-open_spans :
      (sp : Span) (at : Time) (good : Bool) (reason : String) (attrs : List Attr) (b : OtelBuilder)
      → (end_span tracer sp at good reason attrs b).open_spans ≡ b.open_spans
  unfolding end_span perform
  end_span-open_spans sp at good reason attrs b = ground arith

  close_span-open_spans :
      (ctx : Context) (i : SpanId) (at : Time) (good : Bool) (reason : String) (attrs : List Attr)
      (b : OtelBuilder)
      → (close_span tracer ctx i at good reason attrs b).open_spans
        ≡ (if nat_beq i 0 then b.open_spans else Map.delete i b.open_spans)
  unfolding close_span
  close_span-open_spans ctx i at good reason attrs b =
      let b' = if nat_beq i 0 then b else record b { open_spans = Map.delete i b.open_spans } in
      let dropped : b'.open_spans
          ≡ (if nat_beq i 0 then b.open_spans else Map.delete i b.open_spans) =
        ground arith in
      elim (Option-cases (find_span tracer ctx i b)) [
        | inl missing ↦ rw (missing, close_span) dropped
        | inr (sp, there) ↦
            rw (there, close_span)
              (elim (Bool-cases (is_valid (span_context sp))) [
                | inl valid ↦ rw valid (end_span-open_spans sp at good reason attrs b' ∙ dropped)
                | inr invalid ↦ rw invalid dropped
              ])
      ]

  add_span_event-open_spans :
      (ctx : Context) (i : SpanId) (name : String) (at : Time) (attrs : List Attr) (b : OtelBuilder)
      → (add_span_event tracer ctx i name at attrs b).open_spans ≡ b.open_spans
  unfolding add_span_event perform
  add_span_event-open_spans ctx i name at attrs b = elim (Option-cases (find_span tracer ctx i b)) [
    | inl missing ↦ rw (missing, add_span_event)
    | inr (sp, there) ↦
        rw (there, add_span_event)
          (elim (Bool-cases (is_valid (span_context sp))) [
            | inl valid ↦ rw valid
            | inr invalid ↦ rw invalid
          ])
  ]

  open_root-open_spans :
      (ctx : Context) (name kind : String) (at : Time) (attrs : List Attr) (links : List Link)
      (b : OtelBuilder)
      → let b' = (open_root tracer ctx name kind at attrs links b).1 in
        let sc = tracer b'.operations in
        b'.open_spans ≡ Map.insert sc.span_id (recording sc) b.open_spans
  unfolding open_root keep_open perform
  open_root-open_spans ctx name kind at attrs links b = refl

  open_child-open_spans :
      (ctx : Context) (name kind : String) (at : Time) (attrs : List Attr) (b : OtelBuilder)
      → let b' = (open_child tracer ctx name kind at attrs b).1 in
        let sc = tracer b'.operations in
        b'.open_spans ≡ Map.insert sc.span_id (recording sc) b.open_spans
  unfolding open_child keep_open perform
  open_child-open_spans ctx name kind at attrs b = refl

  synthetic_span-open_spans :
      (ctx : Context) (name kind : String) (at until : Time) (attrs : List Attr) (b : OtelBuilder)
      → (synthetic_span tracer ctx name kind at until attrs b).open_spans ≡ b.open_spans
  unfolding synthetic_span perform
  synthetic_span-open_spans ctx name kind at until attrs b = refl

  -- After any calls of the engine, the builder holds open exactly the child spans that were opened
  -- and not closed, and the roots whose id was not closed. Closing a root by the zero id, as the
  -- engine does, takes nothing away.
  pub open_spans-serve_all :
      (cs : List Call) (id : SpanId)
      → nat_beq id 0 ≡ false
      → is_some (Map.get id (serve_all tracer cs).open_spans)
        ≡ (is_open (otel_builder tracer) cs id || is_open_root cs id)
  unfolding serve_all serve is_open is_open_root Map.get
  open_spans-serve_all [] id nonzero = refl
  open_spans-serve_all (Call.open_root ctx name kind at attrs links ∷ cs) id nonzero = ground (
    arith,
    open_spans-serve_all cs id nonzero,
    open_root-open_spans ctx name kind at attrs links (serve_all tracer cs),
    get-insert
        (tracer
          (open_root tracer ctx name kind at attrs links
            (serve_all tracer cs)).1.operations).span_id
        id
        (recording (
          tracer
            (open_root tracer ctx name kind at attrs links (serve_all tracer cs)).1.operations))
        (serve_all tracer cs).open_spans,
  )
  open_spans-serve_all (Call.open_child ctx name kind at attrs ∷ cs) id nonzero = ground (
    arith,
    open_spans-serve_all cs id nonzero,
    open_child-open_spans ctx name kind at attrs (serve_all tracer cs),
    get-insert
        (tracer
          (open_child tracer ctx name kind at attrs (serve_all tracer cs)).1.operations).span_id
        id
        (recording
          (tracer (open_child tracer ctx name kind at attrs (serve_all tracer cs)).1.operations))
        (serve_all tracer cs).open_spans,
  )
  open_spans-serve_all (Call.close_span ctx i at good reason attrs ∷ cs) id nonzero = ground (
    arith,
    open_spans-serve_all cs id nonzero,
    close_span-open_spans ctx i at good reason attrs (serve_all tracer cs),
    get-delete i id (serve_all tracer cs).open_spans,
  )
  open_spans-serve_all (Call.synthetic_span ctx name kind at until attrs ∷ cs) id nonzero =
      ap (λ m. is_some (Map.get id m))
        (synthetic_span-open_spans ctx name kind at until attrs (serve_all tracer cs))
      ∙ open_spans-serve_all cs id nonzero
  open_spans-serve_all (Call.add_span_event ctx i name at attrs ∷ cs) id nonzero = ground (
    arith,
    open_spans-serve_all cs id nonzero,
    add_span_event-open_spans ctx i name at attrs (serve_all tracer cs),
  )
