-- ===== src/Tests/CronTests.antt =====
-- Cron expressions of packages/jobs/src/scheduler.ts on small inputs.
use axiomify.Base.{true, false, ◌≡◌, refl}
use axiomify.Texts.{contains, split, trim, trim_start, trim_end, is_space}
use axiomify.Scheduler.Cron.{
  take_number, parse_digits, signed_digits, parse_int, matches_from, matches_step, matches_range,
  matches_exact, some_item, field_with, field_loop, matches_cron_field, words, Date,
  matches_cron_expression,
}

program : Unit {0}
unfolding contains split trim trim_start trim_end is_space take_number parse_digits signed_digits
    parse_int matches_from matches_step matches_range matches_exact some_item field_with field_loop
    matches_cron_field words matches_cron_expression
program = tt

-- 20 past 8 on Thursday, the 26th of November.
abbrev date : Date
date = record { minute = 20; hour = 8; day = 26; month = 11; weekday = 4 }

every_ten_minutes : matches_cron_expression " */10  8-17 * 1,11 1-5 " date ≡ true
unfolding program
every_ten_minutes = refl

too_few_fields : matches_cron_expression "*/10 8 * *" date ≡ false
unfolding program
too_few_fields = refl

-- A list with a step is read as a step: 6 is neither 1 nor a multiple of 5, and 0 is.
list_with_step : matches_cron_field "1,*/5" 6 ≡ true
unfolding program
list_with_step = refl

list_without_zero : matches_cron_field "1,*/5" 0 ≡ false
unfolding program
list_without_zero = refl
