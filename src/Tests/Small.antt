-- ===== src/Tests/Small.antt =====
-- Runs of the policy and of the configuration.
use ksuite_mail.Common.{◌≡◌, refl, true}
use ksuite_mail.Settings.{validate}
use ksuite_mail.Settings.Valid.{IsValid, validate-IsValid}
use ksuite_mail.Policy.{domain_match}
use ksuite_mail.Policy.Exact.{Verdict, domain_match-Verdict}
use ksuite_mail.Tests.Data.{platform, account, envelope, config}

domain_match-Verdict_example :
    Verdict platform account envelope (domain_match platform account envelope)
unfolding ksuite_mail.Common.same
domain_match-Verdict_example = domain_match-Verdict platform account envelope refl

validate-IsValid_example : IsValid config
unfolding validate ksuite_mail.Strings.trim_right ksuite_mail.Strings.trim_left
    ksuite_mail.Strings.is_space ksuite_mail.Common.contains_text ksuite_mail.Common.same
validate-IsValid_example = validate-IsValid config refl
