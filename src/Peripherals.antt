-- ===== src/Peripherals.antt =====
-- The peripherals behind the bus: src/peripherals of the repository.
pub mod Gpio
pub mod Adc
pub mod Clocks
pub mod ClockTree
pub mod Dma
pub mod IoBank
pub mod Pacing
pub mod Pads
pub mod Pll
pub mod Pwm
pub mod Resets
pub mod Rosc
pub mod Rtc
pub mod I2c
pub mod Sio
pub mod Spi
pub mod Timer
pub mod Uart
pub mod Usb
pub mod Watchdog
pub mod Xosc
mod Tests
mod TransferTests
