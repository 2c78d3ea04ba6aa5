-- ===== src/Tokens/Fitting.antt =====
-- What holds of the text in each branch of `builtin_word_it` of token.cc.
use Prim.Native.String.{len}
use speech_synthesis_system.Base.{
  ◌≤◌, String, ◌≡◌, refl, inl, inr, Bool, true, false, ◌&&◌, All, List, [], ◌∷◌, str_eq, arith,
  Bool-cases,
}
use speech_synthesis_system.Tokens.Calls.{EstCalls, Token}
use speech_synthesis_system.Tokens.Expanding.{
  Branch, empty_token, commaed_point, internet_address, other_token, cut_at, without, first_that,
  is_commaed, tests_of, branch_of,
}
use speech_synthesis_system.Tokens.Laws.{len-positive}

-- What holds of a text whose branch is this one.
module _ (calls : EstCalls) where
  abbrev pub Fits : String → Branch → Type 0
  Fits tok (cut_at sign between) = (calls.contains tok sign ≡ true) × (1 ≤ len sign)
  Fits tok (without sign) = (calls.contains tok sign ≡ true) × (1 ≤ len sign)
  Fits tok internet_address = calls.contains tok "." ≡ true
  Fits tok commaed_point = (is_commaed calls tok ≡ true) × (calls.contains tok "." ≡ true)
  Fits tok empty_token = Unit
  Fits tok branch = 1 ≤ len tok

  abbrev GivesFits : String → Bool × Branch → Type 0
  GivesFits tok (test, branch) = test ≡ true → Fits tok branch

  first_that-Fits :
      (tok : String) (l : List (Bool × Branch)) (default : Branch)
      → All (GivesFits tok) l
      → Fits tok default
      → Fits tok (first_that l default)
  first_that-Fits tok [] default a d = d
  first_that-Fits tok ((true, branch) ∷ rest) default a d = a.0 refl
  first_that-Fits tok ((false, branch) ∷ rest) default a d = first_that-Fits tok rest default a.1 d

  both : (p q : Bool) → (p && q) ≡ true → (p ≡ true) × (q ≡ true)
  both true true h = (refl, refl)
  both true false h = cc
  both false q h = cc

  tests_of-Fits :
      (known : String → Bool) (token : Token) (tok : String)
      → 1 ≤ len tok
      → All (GivesFits tok) (tests_of calls known token tok)
  tests_of-Fits known token tok h = (
    λ e. h,
    (
      λ e. h,
      (
        λ e. h,
        (
          λ e. h,
          (
            λ e. h,
            (
              λ e. h,
              (
                λ e. h,
                (
                  λ e. both (is_commaed calls tok) (calls.contains tok ".") e,
                  (
                    λ e. h,
                    (
                      λ e. h,
                      (
                        λ e. h,
                        (
                          λ e. h,
                          (
                            λ e. h,
                            (
                              λ e. h,
                              (
                                λ e. h,
                                (
                                  λ e. h,
                                  (
                                    λ e. (e, omega arith),
                                    (
                                      λ e. e,
                                      (
                                        λ e. (e, omega arith),
                                        (
                                          λ e. (e, omega arith),
                                          (
                                            λ e. (e, omega arith),
                                            (
                                              λ e. (e, omega arith),
                                              (
                                                λ e. (e, omega arith),
                                                (
                                                  λ e. (e, omega arith),
                                                  (
                                                    λ e. (e, omega arith),
                                                    (
                                                      λ e. (e, omega arith),
                                                      (
                                                        λ e. (e, omega arith),
                                                        (λ e. h, (λ e. h, tt)),
                                                      ),
                                                    ),
                                                  ),
                                                ),
                                              ),
                                            ),
                                          ),
                                        ),
                                      ),
                                    ),
                                  ),
                                ),
                              ),
                            ),
                          ),
                        ),
                      ),
                    ),
                  ),
                ),
              ),
            ),
          ),
        ),
      ),
    ),
  )

  pub branch_of-Fits :
      (known : String → Bool) (token : Token) (tok : String)
      → Fits tok (branch_of calls known token tok)
  unfolding branch_of
  branch_of-Fits known token tok = elim (Bool-cases (str_eq tok "")) [
    | inl e ↦ rw (e, branch_of) tt
    | inr e ↦
        let h = len-positive tok e in
        rw (e, branch_of)
          (first_that-Fits tok (tests_of calls known token tok) other_token
            (tests_of-Fits known token tok h) h)
  ]
