-- ===== src/Platform/Errors/Answers.antt =====
-- What a client learns from an error.
use Prim.Native.String.{String}
use evermore.Base.{
  ◌⊎◌, inl, inr, some, Option-cases, ◌≡◌, refl, Option, none, some, arith, ap, sym, ◌∙◌, [],
}
use evermore.Platform.Errors.{
  Body, GoError, driver, wrapped, guarded, api, as_api, from_error, fail_with,
}

-- The public part of the first API error of a chain.
abbrev pub public_part : GoError → Option Body
public_part (driver s) = none
public_part (wrapped s e) = public_part e
public_part (guarded f) = none
public_part (api b c) = some b

-- The public part of the error that `From` answers, `hidden` when the chain has none.
abbrev pub hidden : Body
hidden = record {
  status = 500;
  code = "INTERNAL";
  message = "Something went wrong. Please try again.";
  fields = [];
  trace_id = "";
}

abbrev pub shown : Option Body → Body
shown none = hidden
shown (some b) = b

-- `From` takes the first API error of the chain.
body-from_error : (e : GoError) → (from_error e).body ≡ shown (public_part e)
unfolding from_error as_api
body-from_error (driver s) = refl
body-from_error (wrapped s e) = ground (arith, body-from_error e)
body-from_error (guarded f) = refl
body-from_error (api b c) = refl

-- The response that an error body makes, with the trace of the request.
abbrev pub traced : Option String → Body → Body
traced none b = b
traced (some id) b = record b { trace_id = id }

response-fail_with :
    (t : Option String) (e : GoError) → (fail_with t e).response ≡ traced t (from_error e).body
unfolding fail_with
response-fail_with none e = refl
response-fail_with (some id) e = refl

answer_of :
    (t : Option String) (e : GoError) → (fail_with t e).response ≡ traced t (shown (public_part e))
answer_of t e = response-fail_with t e ∙ ap (traced t) (body-from_error e)

-- Two errors whose chains have the same public part in their first API error are answered alike: with
-- that part, or, when neither chain has one, with the status 500 and a fixed message. Neither the
-- causes, nor the texts of wrappers, of drivers and of input guards reach the client.
pub fail_with-hides :
    (t : Option String) (a b : GoError)
    → public_part a ≡ public_part b
    → ((fail_with t a).response ≡ (fail_with t b).response)
      × (((public_part a ≡ none) × ((fail_with t a).response ≡ traced t hidden))
          ⊎ ((part : Body) × (public_part a ≡ some part)
              × ((fail_with t a).response ≡ traced t part)))
fail_with-hides t a b h = (
  answer_of t a ∙ (ap (λ o. traced t (shown o)) h ∙ sym (answer_of t b)),
  elim (Option-cases (public_part a)) [
    | inl n ↦ inl (n, answer_of t a ∙ ap (λ o. traced t (shown o)) n)
    | inr (part, e) ↦ inr (part, e, answer_of t a ∙ ap (λ o. traced t (shown o)) e)
  ],
)
