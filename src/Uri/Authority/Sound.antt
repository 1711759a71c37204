-- ===== src/Uri/Authority/Sound.antt =====
-- What the authority methods of uri.cc read, in the words of RFC 3986.
use protovalidate_cc.Base.{
  ◌≡◌, refl, sym, ap, ◌∙◌, Bool, true, false, [], ◌∷◌, ◌++◌, append_assoc, Bytes, if◌then◌else◌,
}
use protovalidate_cc.Parser.Chars.{num, char, concat_ranges, consume}
use protovalidate_cc.Uri.Authority.Literal.Sound.{IpLiteral, Recognises-ip_literal}
use protovalidate_cc.Uri.Authority.Literal.{consume_ip_literal}
use protovalidate_cc.Uri.Authority.{
  is_authority_end, consume_user_info, consume_reg_name, consume_host, consume_port, port_to_end,
  consume_authority,
}
use protovalidate_cc.Uri.Language.{
  Language, OneOf, Cat, cat, Alt, left, right, Star, Opt, Yields, Consumes, Reads, Recognises,
  Recognises-Reads, Recognises-restoring, Reads-&&&, Recognises-|||, Recognises-consume, skip-Skips,
  Yields-skipped,
}
use protovalidate_cc.Uri.Percent.Sound.{
  PctEncoded, Recognises-percent_encoded, Recognises-code_point,
}
use protovalidate_cc.Uri.Steps.{Method, and_then, ◌&&&◌, test, peek, unreserved, sub_delims}

-- userinfo = *( unreserved / pct-encoded / sub-delims / ":" )
abbrev pub UserInfo : Language
UserInfo = Star (Alt (OneOf (concat_ranges (unreserved ∷ sub_delims ∷ char b':' ∷ []))) PctEncoded)

-- reg-name = *( unreserved / pct-encoded / sub-delims )
abbrev pub RegName : Language
RegName = Star (Alt (OneOf (concat_ranges (unreserved ∷ sub_delims ∷ []))) (Star PctEncoded))

-- host = IP-literal / reg-name, where a dotted quad is a reg-name
abbrev pub Host : Language
Host = Alt IpLiteral RegName

-- port = *DIGIT
abbrev pub Port : Language
Port = Star (OneOf num)

-- authority = [ userinfo "@" ] host [ ":" port ]
abbrev pub Authority : Language
Authority =
    Cat (Opt (Cat UserInfo (OneOf (char b'@')))) (Cat Host (Opt (Cat (OneOf (char b':')) Port)))

Recognises-user_info : Recognises UserInfo consume_user_info
unfolding consume_user_info
Recognises-user_info = Recognises-restoring _ _ λ s. Yields-skipped _ s _ _ (
    skip-Skips _ _
      (Recognises-||| _ _ _ _
        (Recognises-consume (concat_ranges (unreserved ∷ sub_delims ∷ char b':' ∷ [])))
        Recognises-percent_encoded)
      s)

Recognises-reg_name : Recognises RegName consume_reg_name
unfolding consume_reg_name
Recognises-reg_name = Recognises-restoring _ _ λ s. Yields-skipped _ s _ _ (
    skip-Skips _ _
      (Recognises-||| _ _ _ _ (Recognises-consume (concat_ranges (unreserved ∷ sub_delims ∷ [])))
        Recognises-code_point)
      s)

Recognises-port : Recognises Port consume_port
unfolding consume_port
Recognises-port =
    Recognises-restoring _ _
      λ s. Yields-skipped _ s _ _ (skip-Skips _ (consume num) (Recognises-consume num) s)

-- The look at the bracket consumes nothing.
Recognises-peeked :
    (P : Language) (p : Method) (b : Bytes → Bool) → Recognises P p → Recognises P (test b &&& p)
Recognises-peeked P p b h s = go (b s)
  where
    go : (v : Bool) → Consumes P s (and_then (v, s) p)
    go true = h s
    go false = refl

Recognises-host : Recognises Host consume_host
unfolding consume_host
Recognises-host =
    Recognises-||| _ _ _ _
      (Recognises-peeked _ consume_ip_literal (peek b'[') Recognises-ip_literal) Recognises-reg_name

Yields-test :
    (P : Language) (s : Bytes) (b : Bytes → Bool) (r : Bool × Bytes)
    → Yields P s r
    → Yields P s (and_then r (test b))
Yields-test P s b (true, t) h = Yields-skip P s t (b t) h
  where
    Yields-skip : (P : Language) (s t : Bytes) (v : Bool) → Yields P s (true, t) → Yields P s (v, t)
    Yields-skip P s t true h = h
    Yields-skip P s t false h = tt
Yields-test P s b (false, t) h = tt

Reads-port_to_end : Reads (Opt (Cat (OneOf (char b':')) Port)) port_to_end
unfolding port_to_end
Reads-port_to_end s = go (consume (char b':') s) (Recognises-consume (char b':') s)
  where
    Suffix : Language
    Suffix = Opt (Cat (OneOf (char b':')) Port)

    ported :
        (t pre : Bytes)
        → s ≡ pre ++ t
        → OneOf (char b':') pre
        → (r : Bool × Bytes) → Yields Port t r
        → Yields Suffix s r
    ported t pre e colon (true, u) (mid, e', digits) =
        (pre ++ mid, e ∙ ap (◌++◌ pre) e' ∙ sym (append_assoc pre mid u), right (cat colon digits))
    ported t pre e colon (false, u) h = tt

    go :
        (r : Bool × Bytes)
        → Consumes (OneOf (char b':')) s r
        → Yields Suffix s (
            if r.0 then (consume_port &&& test is_authority_end) r.1 else test is_authority_end r.1)
    go (true, t) (pre, e, colon) = ported t pre e colon _ (
        Yields-test Port t is_authority_end (consume_port t)
          (Recognises-Reads _ _ Recognises-port t))
    go (false, t) h = Yields-test Suffix s is_authority_end (true, t) ([], sym h, left refl)

-- the host and what follows it
Reads-behind : Reads (Cat Host (Opt (Cat (OneOf (char b':')) Port))) (consume_host &&& port_to_end)
Reads-behind = Reads-&&& _ _ _ _ (Recognises-Reads _ _ Recognises-host) Reads-port_to_end

-- Either the user info and its at sign are read, or neither is.
pub Recognises-authority : Recognises Authority consume_authority
unfolding consume_authority
Recognises-authority =
    Recognises-restoring _ _ λ s. user s (consume_user_info s) (Recognises-user_info s)
  where
    Hosted : Language
    Hosted = Cat Host (Opt (Cat (OneOf (char b':')) Port))

    front :
        (s t pre : Bytes)
        → s ≡ pre ++ t
        → Opt (Cat UserInfo (OneOf (char b'@'))) pre
        → (r : Bool × Bytes) → Yields Hosted t r
        → Yields Authority s r
    front s t pre e info (true, u) (mid, e', h) =
        (pre ++ mid, e ∙ ap (◌++◌ pre) e' ∙ sym (append_assoc pre mid u), cat info h)
    front s t pre e info (false, u) h = tt

    at_sign :
        (s t pre : Bytes)
        → s ≡ pre ++ t
        → UserInfo pre
        → (r : Bool × Bytes) → Consumes (OneOf (char b'@')) t r
        → Yields Authority s (if r.0 then (consume_host &&& port_to_end) r.1 else (false, r.1))
    at_sign s t pre e info (true, u) (mid, e', sign) =
        front s u (pre ++ mid) (e ∙ ap (◌++◌ pre) e' ∙ sym (append_assoc pre mid u))
          (right (cat info sign)) ((consume_host &&& port_to_end) u) (Reads-behind u)
    at_sign s t pre e info (false, u) h = tt

    user :
        (s : Bytes) (r : Bool × Bytes)
        → Consumes UserInfo s r
        → Yields Authority s (
            let at_sign = consume (char b'@') r.1 in
            let behind = (consume_host &&& port_to_end) at_sign.1 in
            let hosted = (consume_host &&& port_to_end) r.1 in
            if r.0 then (if at_sign.0 then behind else (false, at_sign.1)) else hosted)
    user s (true, t) (pre, e, info) =
        at_sign s t pre e info (consume (char b'@') t) (Recognises-consume (char b'@') t)
    user s (false, t) h =
        front s t [] (sym h) (left refl) ((consume_host &&& port_to_end) t) (Reads-behind t)
