-- ===== src/Rest.antt =====
-- The REST layer between the host, the app manager and the applications:
-- core/app-framework/app-native-shared/restful_utils.c. A buffer is the list of its bytes.
pub mod Packet
pub mod Url
pub mod KeyValue
mod Tests
