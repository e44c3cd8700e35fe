-- ===== src/Tests.antt =====
-- Tests of the definitions on concrete inputs, and the properties at inputs that meet their hypotheses.
mod CacheStoreTests
mod DispatcherTests
mod SdkRuntimeTests
mod SessionsTests
mod SessionPluginTests
mod WsRoomsTests
mod CookiesTests
mod CronTests
mod CachePluginTests
mod JobsTests
mod SchedulerTests
mod RateLimitTests
mod RouterTests
